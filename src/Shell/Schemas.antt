-- ===== src/Shell/Schemas.antt =====
-- `JsonSchema` of include/neon/schemas.hpp.
use neon_world_os.Base.{◌++◌, Option, none, some, Bytes, codes, if◌then◌else◌, str_eq}

abbrev pub ps_schema : Bytes
ps_schema =
    codes "{\n"
    ++ (codes "    \"$schema\":\"https://json-schema.org/draft/2020-12/schema\",\n"
        ++ (codes "    \"title\":\"neon.ps\",\n"
            ++ (codes "    \"type\":\"object\",\n"
                ++ (codes "    \"properties\":{\n"
                    ++ (codes
                          "      \"threads\":{\"type\":\"array\",\"items\":{\"type\":\"object\",\"properties\":{\"id\":{\"type\":\"integer\"},\"name\":{\"type\":\"string\"}},\"required\":[\"id\",\"name\"]}},\n"
                        ++ (codes "      \"uptime_us\":{\"type\":\"integer\"}\n"
                            ++ (codes "    },\n"
                                ++ (codes "    \"required\":[\"threads\",\"uptime_us\"]\n"
                                    ++ (codes "  }")))))))))

abbrev pub meminfo_schema : Bytes
meminfo_schema =
    codes "{\n"
    ++ (codes "    \"$schema\":\"https://json-schema.org/draft/2020-12/schema\",\n"
        ++ (codes "    \"title\":\"neon.meminfo\",\n"
            ++ (codes "    \"type\":\"object\",\n"
                ++ (codes
                      "    \"properties\":{\"heap_bytes\":{\"type\":\"integer\"},\"objects\":{\"type\":\"integer\"}},\n"
                    ++ (codes "    \"required\":[\"heap_bytes\",\"objects\"]\n"
                        ++ (codes "  }"))))))

unfoldable pub json_schema : Bytes → Option Bytes
json_schema name =
    if str_eq name (codes "ps")
    then some ps_schema
    else if str_eq name (codes "meminfo")
    then some meminfo_schema
    else none
