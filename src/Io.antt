-- ===== src/Io.antt =====
-- Reading a body through `io.LimitReader`, as atomefin/doer.go and atomefin/callback/handler.go do.
use atome_fin_go_sdk.Base.{
  [], ℕ, Option, none, some, Bytes, leb, length, take, if◌then◌else◌, le_zero,
}
use atome_fin_go_sdk.Errors.{Cause}

-- A stream: the bytes that arrive, and the fault that ends them where they do not end by EOF.
pub record Body : Type 0 where
  pub bytes : Bytes
  pub fault : Option Cause

pub data Read : Type 0 where
  got : Bytes → Read
  broken : Cause → Read

unfoldable pub at_end : Bytes → Option Cause → Read
at_end s none = got s
at_end s (some c) = broken c

-- `io.ReadAll(io.LimitReader(r, limit))`; a limit that is not positive is EOF at once.
unfoldable pub read_all : ℕ → Body → Read
unfolding at_end
read_all limit b =
    if le_zero limit
    then got []
    else if leb limit (length b.bytes)
    then got (take limit b.bytes)
    else at_end b.bytes b.fault
