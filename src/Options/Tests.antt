-- ===== src/Options/Tests.antt =====
-- A command line.
use qnx_virtio.Common.{◌≡◌, [], ◌∷◌, some, none}
use qnx_virtio.Options.{
  VirtioArgs, opt_virtio, opt_idx, opt_irq, opt_qsize, parse_virtio_args, parse_options,
}
use qnx_virtio.Options.Split.{parse_options-concat}

abbrev zeros : VirtioArgs
zeros = record { idx = 0; mem = 0; irq = 0; qsize = 0 }

parse_options-concat_example :
    parse_options
      (opt_virtio (opt_idx (some 1) ∷ opt_irq (some 40) ∷ [])
        ∷ opt_virtio (opt_qsize none ∷ [])
        ∷ [])
      zeros
    ≡ parse_virtio_args (opt_idx (some 1) ∷ opt_irq (some 40) ∷ opt_qsize none ∷ []) zeros
parse_options-concat_example =
    parse_options-concat ((opt_idx (some 1) ∷ opt_irq (some 40) ∷ []) ∷ (opt_qsize none ∷ []) ∷ [])
      zeros
