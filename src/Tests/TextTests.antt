-- ===== src/Tests/TextTests.antt =====
-- The functions on text: src/util.cpp, include/neon/base64.hpp, `glob_match` of src/shell.cpp.
use neon_world_os.Base.{some, ◌≡◌, arith, codes}
use neon_world_os.Base64.{encode, decode}
use neon_world_os.Base64.RoundTrip.{decode-encode}
use neon_world_os.Glob.{glob_match}
use neon_world_os.Glob.Meaning.{matches}
use neon_world_os.Glob.Correct.{glob_match-decides}

decode-encode_example : decode (encode (codes "light wo")) ≡ codes "light wo"
decode-encode_example = decode-encode (codes "light wo") (omega arith)

glob_match-decides_example :
    glob_match (codes "abcbd") (codes "a*b?") ≡ some (matches (codes "a*b?") (codes "abcbd"))
glob_match-decides_example = glob_match-decides (codes "abcbd") (codes "a*b?") (omega arith)
