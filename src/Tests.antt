-- ===== src/Tests.antt =====
-- Runs of the model on concrete inputs, and the theorems at inputs that meet their hypotheses.
mod VfsTests
mod TextTests
mod KernelTests
mod ShellTests
mod CryptoTests
mod ConfigTests
mod RunTests
mod ExecTests
mod BuiltinTests
