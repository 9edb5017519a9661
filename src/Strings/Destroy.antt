-- ===== src/Strings/Destroy.antt =====
-- The destruction of a string against lists of bytes.
use hwarangdo.Strings.Valid.{Valid}
