-- ===== src/IsoBmff/Endless.antt =====
-- A box of size 0, which the format allows for "to the end of the file".
use openplatform_rdk_aamp.Prelude.{
  ℕ, zero, suc, ◌-◌, ◌%◌, ◌^◌, ◌<◌, ◌≡◌, refl, List, [], ◌∷◌, length, false, arith, lt→ltb, ltb,
}
use openplatform_rdk_aamp.IsoBmff.{plain}
use openplatform_rdk_aamp.IsoBmff.Words.{be32}
use openplatform_rdk_aamp.IsoBmff.Parse.{ok, stuck, construct_box, parse_loop, parse_buffer}
use openplatform_rdk_aamp.IsoBmff.Tree.{IsLeafType}

never_above : (max_size : ℕ) → ltb max_size 0 ≡ false
never_above max_size = ground arith

module _ (t0 t1 t2 t3 : ℕ) (rest : List ℕ) (leaf : IsLeafType (t0 ∷ t1 ∷ t2 ∷ t3 ∷ [])) where
  abbrev buffer : List ℕ
  buffer = 0 ∷ 0 ∷ 0 ∷ 0 ∷ t0 ∷ t1 ∷ t2 ∷ t3 ∷ rest

  construct_zero :
      (fuel max_size : ℕ)
      → construct_box (suc fuel) buffer max_size
        ≡ ok (plain (record { offset = 0; size = 0; type = t0 ∷ t1 ∷ t2 ∷ t3 ∷ [] }))
  unfolding construct_box be32
  construct_zero fuel max_size = rw (never_above max_size, leaf.0, leaf.1, leaf.2, leaf.3) refl

  loop_stuck : (fuel size : ℕ) → 0 < size → parse_loop fuel buffer 0 size ≡ stuck
  unfolding parse_loop
  loop_stuck zero size h = refl
  loop_stuck (suc zero) size h = rw (lt→ltb 0 size h, parse_loop) (unfold construct_box in refl)
  loop_stuck (suc (suc fuel)) size h =
      rw (lt→ltb 0 size h, parse_loop)
        (rw (construct_zero fuel ((size - 0) % 2 ^ 32), loop_stuck (suc fuel) size h) refl)

  -- parseBuffer never ends on a buffer that begins with a box of size 0, of a type that the parser
  -- does not look into: no number of rounds is enough.
  pub parse_buffer_endless : (fuel : ℕ) → parse_buffer fuel buffer ≡ stuck
  unfolding parse_buffer
  parse_buffer_endless fuel = loop_stuck fuel (length buffer) (omega arith)
