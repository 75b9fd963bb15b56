-- ===== src/Options/Split.antt =====
-- The suboptions may be spread over several options.
use qnx_virtio.Common.{◌≡◌, refl, sym, ◌∙◌, Option, none, some, List, [], ◌∷◌, ◌++◌, map}
use qnx_virtio.Options.{
  VirtioArgs, Subopt, opt_virtio, Parsed, parsed, help, failed, store_subopt, parse_virtio_args,
  parse_options,
}

abbrev pub concat : List (List Subopt) → List Subopt
concat [] = []
concat (os ∷ oss) = os ++ concat oss

-- Suboptions are followed by others.
abbrev followed : Parsed × VirtioArgs → List Subopt → Parsed × VirtioArgs
followed (parsed, args) os = parse_virtio_args os args
followed (help, args) os = (failed, args)
followed (failed, args) os = (failed, args)

parse_virtio_args-append :
    (os ps : List Subopt) (args : VirtioArgs)
    → parse_virtio_args (os ++ ps) args ≡ followed (parse_virtio_args os args) ps
unfolding parse_virtio_args
parse_virtio_args-append [] ps args = refl
parse_virtio_args-append (o ∷ os) ps args =
    stored (λ args'. parse_virtio_args-append os ps args') (store_subopt o args)
  where
    stored :
        ((args' : VirtioArgs)
          → parse_virtio_args (os ++ ps) args' ≡ followed (parse_virtio_args os args') ps)
        → (r : Option VirtioArgs)
        → ◌≡◌ {A = Parsed × VirtioArgs}
            (elim r as (λ _. Parsed × VirtioArgs) [
              | none ↦ (failed, args)
              | some args' ↦ parse_virtio_args (os ++ ps) args'
            ])
            (followed
              (elim r as (λ _. Parsed × VirtioArgs) [
                | none ↦ (failed, args)
                | some args' ↦ parse_virtio_args os args'
              ])
              ps)
    stored rest none = refl
    stored rest (some args') = rest args'

-- Options that are all for VirtIO store what one option with all their suboptions in order stores, and
-- fail where it fails, at the same suboption.
pub parse_options-concat :
    (oss : List (List Subopt)) (args : VirtioArgs)
    → parse_options (map opt_virtio oss) args ≡ parse_virtio_args (concat oss) args
unfolding parse_options
parse_options-concat [] args = refl
parse_options-concat (os ∷ oss) args =
    next (λ args'. parse_options-concat oss args') (parse_virtio_args os args)
    ∙ sym (parse_virtio_args-append os (concat oss) args)
  where
    next :
        ((args' : VirtioArgs)
          → parse_options (map opt_virtio oss) args' ≡ parse_virtio_args (concat oss) args')
        → (r : Parsed × VirtioArgs)
        → ◌≡◌ {A = Parsed × VirtioArgs}
            (elim r.0 as (λ _. Parsed × VirtioArgs) [
              | parsed ↦ parse_options (map opt_virtio oss) r.1
              | help ↦ (failed, r.1)
              | failed ↦ (failed, r.1)
            ])
            (followed r (concat oss))
    next rest (parsed, args') = rest args'
    next rest (help, args') = refl
    next rest (failed, args') = refl
