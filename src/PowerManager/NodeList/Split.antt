-- ===== src/PowerManager/NodeList/Split.antt =====
-- Splitting a node list at its commas undoes joining the parts.
use soperator.Prelude.{
  ◌≡◌, refl, sym, ◌∙◌, ap, ◌≢◌, ℤ, pos, ℤ_beq, succ_ℤ, pred_ℤ, false, ◌&&◌, List, [], ◌∷◌, ◌++◌,
  Bytes, nat_beq, All, if◌then◌else◌, ℕ,
}
use mathlib.Core.List.{append_assoc, append-nil}
use soperator.PowerManager.NodeList.{flush, split_loop, split_node_list}
use soperator.Text.{trim_space}

abbrev depth_after : ℤ → ℕ → ℤ
depth_after d c = if nat_beq c b'[' then succ_ℤ d else if nat_beq c b']' then pred_ℤ d else d

-- From depth `d` the brackets of the text close, and every comma stands inside of them.
abbrev pub IsClosed : ℤ → Bytes → Type 0
IsClosed d [] = d ≡ pos 0
IsClosed d (c ∷ s) = ((nat_beq c b',' && ℤ_beq d (pos 0)) ≡ false) × IsClosed (depth_after d c) s

-- A part as `parseNodeRange` is given it: not empty, no space at its ends, its brackets closed.
pub record IsPart (s : Bytes) : Type 0 where
  pub trimmed : trim_space s ≡ s
  pub not_empty : s ≢ []
  pub closed : IsClosed (pos 0) s

abbrev pub join : List Bytes → Bytes
join [] = []
join (s ∷ []) = s
join (s ∷ t ∷ parts) = s ++ b',' ∷ join (t ∷ parts)

split_loop-append :
    (parts : List Bytes) (current : Bytes) (d : ℤ) (s rest : Bytes)
    → IsClosed d s
    → split_loop parts current d (s ++ rest) ≡ split_loop parts (current ++ s) (pos 0) rest
unfolding split_loop
split_loop-append parts current d [] rest h = rw (h, append-nil)
split_loop-append parts current d (c ∷ s) rest h =
    rw (h.0, split_loop)
      (split_loop-append parts (current ++ c ∷ []) (depth_after d c) s rest h.1
        ∙ ap (λ x. split_loop parts x (pos 0) rest) (append_assoc current (c ∷ []) s))

flush_part : (parts : List Bytes) (s : Bytes) → IsPart s → flush parts s ≡ parts ++ s ∷ []
unfolding flush
flush_part parts [] h = absurd (h.not_empty refl)
flush_part parts (c ∷ s) h = rw (h.trimmed, flush)

split_loop-join :
    (parts : List Bytes) (s : Bytes) (ts : List Bytes)
    → IsPart s
    → All IsPart ts
    → split_loop parts [] (pos 0) (join (s ∷ ts)) ≡ parts ++ s ∷ ts
unfolding split_loop
split_loop-join parts s [] h hs =
    ap (split_loop parts [] (pos 0)) (sym (append-nil s))
    ∙ split_loop-append parts [] (pos 0) s [] h.closed
    ∙ flush_part parts s h
split_loop-join parts s (t ∷ ts) h hs =
    split_loop-append parts [] (pos 0) s _ h.closed
    ∙ ap (λ ps. split_loop ps [] (pos 0) (join (t ∷ ts))) (flush_part parts s h)
    ∙ split_loop-join (parts ++ s ∷ []) t ts hs.0 hs.1
    ∙ append_assoc parts (s ∷ []) (t ∷ ts)

-- A list of parts, each trimmed, not empty and with its brackets closed around its commas, comes
-- back from its text, in order.
pub split_node_list-join :
    (parts : List Bytes) → All IsPart parts → split_node_list (join parts) ≡ parts
unfolding split_node_list split_loop flush trim_space
split_node_list-join [] h = refl
split_node_list-join (s ∷ ts) h = split_loop-join [] s ts h.0 h.1
