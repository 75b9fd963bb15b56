-- ===== src/Resmgr/Run.antt =====
-- src/gpio/resmgr.c: `resmgr_run`, which attaches a name for the chip and one for each line and then
-- serves messages. The calls of the system are a parameter. The loop that serves runs on fuel:
-- `none` means that it ran out.
use qnx_virtio.Common.{
  ℕ, zero, suc, Bool, Option, none, some, List, [], ◌∷◌, Errno, einval, Result, ok, err,
  if◌then◌else◌, replicate,
}

-- The names in /dev: that of the chip, and those of the lines.
pub data Node : Type 0 where
  chip_node : Node
  line_node : ℕ → Node

-- What `calloc` is called for: the `struct gpio_resmgr`, and the arrays of attributes and of ids.
pub data Block : Type 0 where
  resmgr_block : Block
  attrs_block ids_block : (count : ℕ) → Block

-- An absent id is -1, and `false` a null pointer. `serve` is `dispatch_block` with, if it returns a
-- context, `dispatch_handler`.
pub record ResmgrSystem (W : Type 0) : Type 0 where
  pub errno : W → Errno
  pub dispatch_create : W → Bool × W
  pub dispatch_destroy : W → W
  pub calloc : Block → W → Bool × W
  pub free : Block → W → W
  pub resmgr_attach : Node → W → Option ℕ × W
  pub resmgr_detach : (id : ℕ) → W → W
  pub dispatch_context_alloc : W → Bool × W
  pub serve : W → Bool × W

module _ {W : Type 0} (sys : ResmgrSystem W) where
  open sys use {
    errno, dispatch_create, dispatch_destroy, calloc, free, resmgr_attach, resmgr_detach,
    dispatch_context_alloc, serve,
  }

  -- The loop over the lines from `n` on, with `count` to go: the code, if one fails, and what the
  -- loop leaves in their part of `ids`.
  unfoldable pub attach_lines : (count n : ℕ) → W → Option Errno × List (Option ℕ) × W
  attach_lines zero n w = (none, [], w)
  attach_lines (suc count) n w =
      let (id, w1) = resmgr_attach (line_node n) w in
      let (rc, ids, w2) = attach_lines count (suc n) w1 in
      elim id as (λ _. Option Errno × List (Option ℕ) × W) [
        | none ↦ (some (errno w1), none ∷ replicate count none, w1)
        | some i ↦ (rc, some i ∷ ids, w2)
      ]

  -- The loop at the label `detach`, over the lines' part of `ids`.
  unfoldable pub detach_lines : List (Option ℕ) → W → W
  detach_lines [] w = w
  detach_lines (none ∷ ids) w = detach_lines ids w
  detach_lines (some i ∷ ids) w = detach_lines ids (resmgr_detach i w)

  -- `while (1)`: what `errno` holds when `dispatch_block` fails.
  unfoldable pub serve_all : (fuel : ℕ) → W → Option (Errno × W)
  serve_all zero w = none
  serve_all (suc fuel) w =
      let (more, w1) = serve w in
      let rest = serve_all fuel w1 in if more then rest else some (errno w1, w1)

  -- The labels `free_dpp`, `free_resmgr`, `free_attrs` and `detach`.
  unfoldable pub free_dpp : Errno → W → Errno × W
  free_dpp rc w = (rc, dispatch_destroy w)

  unfoldable pub free_resmgr : Errno → W → Errno × W
  unfolding free_dpp
  free_resmgr rc w = free_dpp rc (free resmgr_block w)

  unfoldable pub free_attrs : (ngpio : ℕ) → Errno → W → Errno × W
  unfolding free_resmgr
  free_attrs ngpio rc w = free_resmgr rc (free (attrs_block (suc ngpio)) w)

  unfoldable pub detach : (ngpio : ℕ) → List (Option ℕ) → Errno → W → Errno × W
  unfolding free_attrs detach_lines
  detach ngpio ids rc w = free_attrs ngpio rc (free (ids_block (suc ngpio)) (detach_lines ids w))

  -- Once the memory is there: the names, and the service.
  unfoldable pub attach_all : (fuel ngpio : ℕ) → W → Option (Errno × W)
  unfolding attach_lines detach serve_all
  attach_all fuel ngpio w =
      let (chip, w1) = resmgr_attach chip_node w in
      let lines =
        let (rc, ids, w2) = attach_lines ngpio 0 w1 in
        let (context, w3) = dispatch_context_alloc w2 in
        let served = serve_all fuel w3 in
        elim rc as (λ _. Option (Errno × W)) [
          | none ↦ if context then served else some (detach ngpio ids (errno w3) w3)
          | some code ↦ some (detach ngpio ids code w2)
        ] in
      elim chip as (λ _. Option (Errno × W)) [
        | none ↦ some (detach ngpio (replicate ngpio none) (errno w1) w1)
        | some id ↦ lines
      ]

  -- `lines` is what `virtio_gpio_num_gpios` returns for a device that is there.
  unfoldable pub resmgr_run : (fuel : ℕ) → (lines : Option (Result ℕ)) → W → Option (Errno × W)
  unfolding attach_all
  resmgr_run fuel none w = some (einval, w)
  resmgr_run fuel (some (err rc)) w = some (rc, w)
  resmgr_run fuel (some (ok ngpio)) w =
      let (dpp, w1) = dispatch_create w in
      let (resmgr, w2) = calloc resmgr_block w1 in
      let (attrs, w3) = calloc (attrs_block (suc ngpio)) w2 in
      let (ids, w4) = calloc (ids_block (suc ngpio)) w3 in
      let attached = attach_all fuel ngpio w4 in
      if dpp
      then (if resmgr
          then (if attrs
              then (if ids then attached else some (free_attrs ngpio (errno w4) w4))
              else some (free_resmgr (errno w3) w3))
          else some (free_dpp (errno w2) w2))
      else some (errno w1, w1)
