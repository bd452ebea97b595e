-- ===== src/Log/Tests.antt =====
-- The log's theorems at small inputs.
use comet_os.Base.{ℕ, ◌≡◌, refl, arith, inl, List, [], ◌∷◌, some}
use comet_os.Log.{print_dec, vasprintf}
use comet_os.Log.Format.{
  Piece, plain, converted, hex, no_text, other, Formed, format_of, args_of, Reads, vasprintf-Reads,
}

-- A value above 1410065407 comes out with zeros in front.
two_billion :
    print_dec 2000000000 0
    ≡ b'0' ∷ b'0' ∷ b'2' ∷ b'0' ∷ b'0' ∷ b'0' ∷ b'0' ∷ b'0' ∷ b'0' ∷ b'0' ∷ b'0' ∷ b'0' ∷ []
unfolding print_dec
two_billion = refl

-- `"a%2x%s%%"`.
abbrev pieces : List Piece
pieces =
    plain b'a'
    ∷ converted (b'2' ∷ []) (hex 10)
    ∷ converted [] no_text
    ∷ converted [] (other b'%')
    ∷ []

pieces-Formed : Formed pieces
pieces-Formed = (
  λ e. ground arith,
  (
    (omega arith, omega arith, tt),
    tt,
    (tt, tt, (tt, (inl (omega arith), omega arith, omega arith, omega arith, omega arith), tt)),
  ),
)

vasprintf-Reads_example :
    (out : List ℕ) × (vasprintf (format_of pieces) (args_of pieces) ≡ some out) × Reads pieces out
vasprintf-Reads_example = vasprintf-Reads pieces pieces-Formed
