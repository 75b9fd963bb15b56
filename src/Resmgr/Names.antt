-- ===== src/Resmgr/Names.antt =====
-- Which names the resource manager has attached when it gives up.
use qnx_virtio.Common.{
  ℕ, zero, suc, ◌≡◌, refl, ◌∙◌, inl, inr, Bool, false, not, ◌&&◌, ◌||◌, Option, none, some, List,
  [], ◌∷◌, Errno, arith, ◌==◌, replicate, ◌⊎◌,
}
use qnx_virtio.Resmgr.Run.{
  ResmgrSystem, Node, Block, chip_node, line_node, resmgr_block, attrs_block, ids_block,
  attach_lines, detach_lines, detach, free_attrs, free_resmgr, free_dpp, attach_all,
}

-- The names that are attached, by their ids, and what the calls do to them.
pub record Names {W : Type 0} (sys : ResmgrSystem W) : Type 0 where
  pub attached : W → ℕ → Bool
  pub attach-new :
      (node : Node) (w : W) (i : ℕ) → (sys.resmgr_attach node w).0 ≡ some i → attached w i ≡ false
  pub attach-some :
      (node : Node) (w : W) (i k : ℕ)
      → (sys.resmgr_attach node w).0 ≡ some i
      → attached (sys.resmgr_attach node w).1 k ≡ (k == i || attached w k)
  pub attach-none :
      (node : Node) (w : W) (k : ℕ)
      → (sys.resmgr_attach node w).0 ≡ none
      → attached (sys.resmgr_attach node w).1 k ≡ attached w k
  pub detach-not :
      (i : ℕ) (w : W) (k : ℕ) → attached (sys.resmgr_detach i w) k ≡ (not (k == i) && attached w k)
  pub free-same : (b : Block) (w : W) (k : ℕ) → attached (sys.free b w) k ≡ attached w k
  pub destroy-same : (w : W) (k : ℕ) → attached (sys.dispatch_destroy w) k ≡ attached w k

abbrev has : ℕ → List (Option ℕ) → Bool
has k [] = false
has k (none ∷ ids) = has k ids
has k (some i ∷ ids) = k == i || has k ids

has-none : (k n : ℕ) → has k (replicate n none) ≡ false
has-none k zero = refl
has-none k (suc n) = has-none k n

id_cases : (o : Option ℕ) → (o ≡ none) ⊎ ((i : ℕ) × (o ≡ some i))
id_cases none = inl refl
id_cases (some i) = inr (i, refl)

module _ {W : Type 0} (sys : ResmgrSystem W) (names : Names sys) where
  open names use {
    attached, attach-new, attach-some, attach-none, detach-not, free-same, destroy-same,
  }

  detach_lines-names :
      (ids : List (Option ℕ)) (w : W) (k : ℕ)
      → attached (detach_lines sys ids w) k ≡ (not (has k ids) && attached w k)
  unfolding detach_lines
  detach_lines-names [] w k = refl
  detach_lines-names (none ∷ ids) w k = detach_lines-names ids w k
  detach_lines-names (some i ∷ ids) w k =
      ground (arith, detach_lines-names ids (sys.resmgr_detach i w) k, detach-not i w k)

  attach_lines-names :
      (count n : ℕ) (w : W) (k : ℕ)
      → let (rc, ids, w') = attach_lines sys count n w in
        (attached w' k ≡ (has k ids || attached w k)) × (has k ids && attached w k ≡ false)
  unfolding attach_lines
  attach_lines-names zero n w k = (refl, refl)
  attach_lines-names (suc count) n w k =
      let node = line_node n in
      let w1 = (sys.resmgr_attach node w).1 in
      elim (id_cases (sys.resmgr_attach node w).0) [
        | inl e ↦ ground (arith, e, attach-none node w k e, has-none k count)
        | inr (i, e) ↦ ground (
          arith,
          e,
          attach-some node w i k e,
          attach-new node w i e,
          attach_lines-names count (suc n) w1 k,
        )
      ]

  detach-names :
      (ngpio : ℕ) (ids : List (Option ℕ)) (rc : Errno) (w : W) (k : ℕ)
      → attached (detach sys ngpio ids rc w).1 k ≡ (not (has k ids) && attached w k)
  unfolding detach free_attrs free_resmgr free_dpp
  detach-names ngpio ids rc w k =
      let w1 = detach_lines sys ids w in
      let w2 = sys.free (ids_block (suc ngpio)) w1 in
      let w3 = sys.free (attrs_block (suc ngpio)) w2 in
      destroy-same (sys.free resmgr_block w3) k
      ∙ free-same resmgr_block w3 k
      ∙ free-same (attrs_block (suc ngpio)) w2 k
      ∙ free-same (ids_block (suc ngpio)) w1 k
      ∙ detach_lines-names ids w k

  -- When the name of the chip is attached as `chip` and that of a line cannot be, `resmgr_run` returns
  -- the error of that line and detaches the names of the lines before it, and no name that was
  -- attached before; that of the chip stays attached.
  pub attach_all-keeps_chip :
      (fuel ngpio : ℕ) (w : W) (chip : ℕ) (code : Errno) (k : ℕ)
      → (sys.resmgr_attach chip_node w).0 ≡ some chip
      → (attach_lines sys ngpio 0 (sys.resmgr_attach chip_node w).1).0 ≡ some code
      → (w' : W) × (attach_all sys fuel ngpio w ≡ some (code, w'))
        × (attached w' k ≡ (k == chip || attached w k))
  unfolding attach_all
  attach_all-keeps_chip fuel ngpio w chip code k found failed =
      let w1 = (sys.resmgr_attach chip_node w).1 in
      let (rc, ids, w2) = attach_lines sys ngpio 0 w1 in
      let lines = attach_lines-names ngpio 0 w1 k in
      (
        (detach sys ngpio ids code w2).1,
        rw (attach_all, found, failed) refl,
        ground
            (arith, detach-names ngpio ids code w2 k, lines, attach-some chip_node w chip k found),
      )
