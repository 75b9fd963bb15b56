-- ===== src/Options.antt =====
-- src/gpio/options.c: the command line. What `getopt_long` and `getsubopt` find is an argument, as is
-- the number that `strtoul` makes of a value: a suboption without a value is a null pointer there.
pub mod Split
mod Tests
use qnx_virtio.Common.{ℕ, Option, none, some, List, [], ◌∷◌, u32, u64}

-- `struct virtio_args`
pub record VirtioArgs : Type 0 where
  pub idx : ℕ
  pub mem : ℕ
  pub irq : ℕ
  pub qsize : ℕ

-- The suboptions, with the numbers that their values are.
pub data Subopt : Type 0 where
  opt_idx opt_mem opt_irq opt_qsize : Option ℕ → Subopt
  opt_other : Subopt

-- The options; that for VirtIO has a list of suboptions.
pub data Opt : Type 0 where
  opt_virtio : List Subopt → Opt
  opt_help opt_unknown : Opt

-- What the two functions return: 0, 1 or -1.
pub data Parsed : Type 0 where
  parsed help failed : Parsed

-- One round of the loop over the suboptions: the structure, if there is no error.
unfoldable pub store_subopt : Subopt → VirtioArgs → Option VirtioArgs
store_subopt (opt_idx (some n)) args = some (record args { idx = u32 n })
store_subopt (opt_mem (some n)) args = some (record args { mem = u64 n })
store_subopt (opt_irq (some n)) args = some (record args { irq = u32 n })
store_subopt (opt_qsize (some n)) args = some (record args { qsize = u32 n })
store_subopt _ args = none

-- On an error the suboptions in front of it stay stored.
unfoldable pub parse_virtio_args : List Subopt → VirtioArgs → Parsed × VirtioArgs
unfolding store_subopt
parse_virtio_args [] args = (parsed, args)
parse_virtio_args (o ∷ os) args = elim (store_subopt o args) as (λ _. Parsed × VirtioArgs) [
  | none ↦ (failed, args)
  | some args' ↦ parse_virtio_args os args'
]

unfoldable pub parse_options : List Opt → VirtioArgs → Parsed × VirtioArgs
unfolding parse_virtio_args
parse_options [] args = (parsed, args)
parse_options (opt_help ∷ opts) args = (help, args)
parse_options (opt_unknown ∷ opts) args = (failed, args)
parse_options (opt_virtio subopts ∷ opts) args =
    let (r, args') = parse_virtio_args subopts args in
    let rest = parse_options opts args' in
    elim r as (λ _. Parsed × VirtioArgs) [
      | parsed ↦ rest
      | help ↦ (failed, args')
      | failed ↦ (failed, args')
    ]
