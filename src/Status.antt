-- ===== src/Status.antt =====
-- src/status.h: the error codes, as the `-E…` that the functions return.
use unagi_os.Common.Int.{ℤ, negsuc}

-- `-EIO`
abbrev pub eio : ℤ
eio = negsuc 0

-- `-EINVARG`
abbrev pub einvarg : ℤ
einvarg = negsuc 1

-- `-ENOMEM`
abbrev pub enomem : ℤ
enomem = negsuc 2

-- `-EBADPATH`
abbrev pub ebadpath : ℤ
ebadpath = negsuc 3
