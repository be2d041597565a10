-- ===== src/Error.antt =====
-- `src/error.rs`: the error values of every component and the exit code of each.
use proxec.Base.{ℕ}
use proxec.Base.Text.{Text}

-- `io::Error`: a code of the operating system, or a kind that the I/O library itself reports.
pub data IoError : Type 0 where
  os : ℕ → IoError
  unexpected_eof write_zero : IoError

pub data Error : Type 0 where
  no_proxy : Error
  invalid_proxy_url : Text → Error
  fork ptrace : ℕ → Error
  exec : IoError → Error
  wait memory_read memory_write : ℕ → Error
  unknown_address_family : ℕ → Error
  proxy_connect : IoError → Error
  http_proxy socks_proxy : Text → Error
  io : IoError → Error
  invalid_argument : Text → Error
  nul_byte : Error

-- `Error::exit_code`.
pub exit_code : Error → ℕ
exit_code no_proxy = 0
exit_code (invalid_proxy_url _) = 2
exit_code (proxy_connect _) = 69
exit_code (ptrace _) = 77
exit_code (exec _) = 126
exit_code _ = 1
