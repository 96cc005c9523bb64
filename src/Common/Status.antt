-- ===== src/Common/Status.antt =====
-- src/status.h: the error codes, and what a function that returns one of them or a value returns.
-- A C function returns `-EIO` and the like; here that is `err eio`.
use Prim.Native.Nat.{ℕ}

pub data Errno : Type 0 where
  eio einvarg enomem ebadpath efsnotus erdonly eunimp eistaken eiformat : Errno

pub data Result {ℓ} (A : Type ℓ) : Type ℓ where
  ok : A → Result A
  err : Errno → Result A

-- The number of a code.
abbrev pub errno : Errno → ℕ
errno eio = 1
errno einvarg = 2
errno enomem = 3
errno ebadpath = 4
errno efsnotus = 5
errno erdonly = 6
errno eunimp = 7
errno eistaken = 8
errno eiformat = 9
