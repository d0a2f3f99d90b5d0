-- ===== src/Morphing/Examples.antt =====
-- Runs of src/morphing at concrete inputs.
use anon_guard.Base.{◌+◌, ◌%◌, ◌≤◌, ◌<◌, ◌≡◌, refl, [], ◌∷◌, codes, length, arith, ok, err}
use anon_guard.Morphing.Padding.{UnpadError, new, pad, unpad, unpad-pad}

pad_hello :
    pad (new 8) (codes "hello")
    ≡ 0 ∷ 0 ∷ 0 ∷ 5 ∷ 104 ∷ 101 ∷ 108 ∷ 108 ∷ 111 ∷ 0 ∷ 0 ∷ 0 ∷ 0 ∷ 0 ∷ 0 ∷ 0 ∷ []
unfolding pad new
pad_hello = refl

unpad_cut : unpad (new 8) (0 ∷ 0 ∷ 0 ∷ 5 ∷ 104 ∷ []) ≡ err UnpadError.truncated
unfolding unpad
unpad_cut = refl

unpad-pad_example :
    (unpad (new 8) (pad (new 8) (codes "hello")) ≡ ok (codes "hello"))
    × (length (pad (new 8) (codes "hello")) % (new 8).block_size ≡ 0)
    × (length (codes "hello") + 4 ≤ length (pad (new 8) (codes "hello")))
    × (length (pad (new 8) (codes "hello")) < length (codes "hello") + 4 + (new 8).block_size)
unpad-pad_example = unpad-pad 8 (codes "hello") (omega arith)
