-- ===== src/Common.antt =====
-- What the components share: library names passed on, tests, lists, byte blocks, machine words,
-- and the error codes that every function of the program returns.
mod Test
mod Lists
mod Bytes
mod Bits
pub use Test.*
pub use Lists.*
unfoldable pub use Bytes.{read_at, write_at}
pub use Bytes.{
  length-write_at, read_at-write_at_self, read_at-write_at_below, read_at-write_at_above,
}
pub use Bits.*
pub use Prim.Native.Nat.{bit_and, bit_or}
pub use Prim.Native.Nat.{ℕ, zero, suc, ◌+◌, ◌-◌, ◌*◌, ◌/◌, ◌%◌, ◌^◌, ◌≤◌, ◌<◌, min}
pub use mathlib.Core.Path.{◌≡◌, refl, sym, ap, subst, ◌∙◌}
pub use mathlib.Core.Logic.{◌≢◌, ◌⊎◌, inl, inr}
pub use mathlib.Core.Bool.{Bool, true, false, not, ◌&&◌, ◌||◌}
pub use mathlib.Core.Option.{Option, none, some}
pub use mathlib.Core.List.{List, [], ◌∷◌, ◌++◌, map}
pub use native.Mathlib.Omega.{arith}

-- The unsigned integers of C wrap.
abbrev pub u8 : ℕ → ℕ
u8 n = n % 2 ^ 8

abbrev pub u16 : ℕ → ℕ
u16 n = n % 2 ^ 16

abbrev pub u32 : ℕ → ℕ
u32 n = n % 2 ^ 32

abbrev pub u64 : ℕ → ℕ
u64 n = n % 2 ^ 64

-- The return codes: `EOK`, the named codes of <errno.h> that the program uses, the -1 of the
-- system calls, and any other code that a call outside the program may return.
pub data Errno : Type 0 where
  eok einval enomem enoent eio enodev eintr etimedout enotsup enosys ealready minus_one : Errno
  other : ℕ → Errno

-- `rc == EOK`
abbrev pub is_ok : Errno → Bool
is_ok eok = true
is_ok _ = false

pub is_ok→eq : (e : Errno) → is_ok e ≡ true → e ≡ eok
is_ok→eq eok h = refl
is_ok→eq _ h = cc

-- The result of a function that writes its output exactly when it returns `EOK`.
pub data Result {ℓ} (A : Type ℓ) : Type ℓ where
  ok : A → Result A
  err : Errno → Result A
