-- ===== src/Logging/Basename.antt =====
-- utils/logging/logging.c: the file's name in a line on stdout.
use qnx_virtio.Common.{ℕ, ◌≡◌, ◌≢◌, refl, List, [], ◌∷◌, ◌++◌, none, some, arith}
use qnx_virtio.Logging.{strrchr, basename}

abbrev pub NoSlash : List ℕ → Type 0
NoSlash [] = Unit {0}
NoSlash (x ∷ xs) = (x ≢ b'/') × NoSlash xs

strrchr-none : (xs : List ℕ) → NoSlash xs → strrchr xs b'/' ≡ none
unfolding strrchr
strrchr-none [] h = refl
strrchr-none (x ∷ xs) h = rw (strrchr-none xs h.1) (ground (arith, h.0))

strrchr-last :
    (dir name : List ℕ) → NoSlash name → strrchr (dir ++ (b'/' ∷ name)) b'/' ≡ some (b'/' ∷ name)
unfolding strrchr
strrchr-last [] name h = rw (strrchr-none name h) refl
strrchr-last (x ∷ dir) name h = rw (strrchr-last dir name h) refl

-- The name that is printed for a path is what stands behind its last slash, and a path without a
-- slash is printed whole.
pub basename-last :
    (dir name : List ℕ)
    → NoSlash name
    → (basename (dir ++ (b'/' ∷ name)) ≡ name) × (basename name ≡ name)
unfolding basename
basename-last dir name h =
    (rw (basename, strrchr-last dir name h) refl, rw (basename, strrchr-none name h) refl)
