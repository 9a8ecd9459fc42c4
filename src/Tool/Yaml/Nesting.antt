-- ===== src/Tool/Yaml/Nesting.antt =====
-- The nesting of a document's events, as libyaml reports it for a file that it accepts: what is open
-- in front of the events that are left.
use bpfima.Base.{
  ℕ, suc, ◌≤◌, ◌≡◌, ap, ◌∙◌, Bool, true, false, Option, none, some, List, [], ◌∷◌, ◌++◌,
  append_assoc, arith, length,
}
use bpfima.Tool.Yaml.{
  Event, scalar, mapping_start, mapping_end, sequence_start, sequence_end, document_end, stream_end,
  other, failed, Parsed,
}

pub data Node : Type 0 where
  mapping sequence : Node

-- The events close every node of the stack, and each that they open themselves, in the right order,
-- in front of the end of the document or the stream; no error is among them.
abbrev pub closes : List Event → List Node → Bool
closes [] st = false
closes (failed ∷ es) st = false
closes (scalar v ∷ es) st = closes es st
closes (other ∷ es) st = closes es st
closes (mapping_start ∷ es) st = closes es (mapping ∷ st)
closes (sequence_start ∷ es) st = closes es (sequence ∷ st)
closes (mapping_end ∷ es) [] = false
closes (mapping_end ∷ es) (mapping ∷ st) = closes es st
closes (mapping_end ∷ es) (sequence ∷ st) = false
closes (sequence_end ∷ es) [] = false
closes (sequence_end ∷ es) (mapping ∷ st) = false
closes (sequence_end ∷ es) (sequence ∷ st) = closes es st
closes (document_end ∷ es) [] = true
closes (document_end ∷ es) (x ∷ st) = false
closes (stream_end ∷ es) [] = true
closes (stream_end ∷ es) (x ∷ st) = false

-- The nodes of the stack are open, and maybe others within.
abbrev pub Open : List Node → List Event → Type 0
Open st es = (q : List Node) × (closes es (q ++ st) ≡ true)

pub lift : (q st : List Node) (es : List Event) → Open (q ++ st) es → Open st es
lift q st es (r, h) = (r ++ q, ap (closes es) (append_assoc r q st) ∙ h)

pub pop : (x : Node) (st : List Node) (es : List Event) → Open (x ∷ st) es → Open st es
pop x st es h = lift (x ∷ []) st es h

pub skip-mapping_start :
    (st : List Node) (es : List Event) → Open st (mapping_start ∷ es) → Open st es
skip-mapping_start st es (q, h) = (mapping ∷ q, h)

pub skip-sequence_start :
    (st : List Node) (es : List Event) → Open st (sequence_start ∷ es) → Open st es
skip-sequence_start st es (q, h) = (sequence ∷ q, h)

-- the end of the innermost mapping that a loop waits for, or of one within
pub close-mapping :
    (st : List Node) (es : List Event) → Open (mapping ∷ st) (mapping_end ∷ es) → Open st es
close-mapping st es ([], h) = ([], h)
close-mapping st es (mapping ∷ q, h) = pop mapping st es (q, h)
close-mapping st es (sequence ∷ q, h) = absurd cc

pub close-sequence :
    (st : List Node) (es : List Event) → Open (sequence ∷ st) (sequence_end ∷ es) → Open st es
close-sequence st es ([], h) = ([], h)
close-sequence st es (sequence ∷ q, h) = pop sequence st es (q, h)
close-sequence st es (mapping ∷ q, h) = absurd cc

-- an end of the other kind is within
pub within-mapping :
    (st : List Node) (es : List Event)
    → Open (mapping ∷ st) (sequence_end ∷ es)
    → Open (mapping ∷ st) es
within-mapping st es ([], h) = absurd cc
within-mapping st es (mapping ∷ q, h) = absurd cc
within-mapping st es (sequence ∷ q, h) = (q, h)

pub within-sequence :
    (st : List Node) (es : List Event)
    → Open (sequence ∷ st) (mapping_end ∷ es)
    → Open (sequence ∷ st) es
within-sequence st es ([], h) = absurd cc
within-sequence st es (mapping ∷ q, h) = (q, h)
within-sequence st es (sequence ∷ q, h) = absurd cc

-- an end at the top of the file
pub top-mapping_end : (es : List Event) → Open [] (mapping_end ∷ es) → Open [] es
top-mapping_end es ([], h) = absurd cc
top-mapping_end es (mapping ∷ q, h) = (q, h)
top-mapping_end es (sequence ∷ q, h) = absurd cc

pub top-sequence_end : (es : List Event) → Open [] (sequence_end ∷ es) → Open [] es
top-sequence_end es ([], h) = absurd cc
top-sequence_end es (mapping ∷ q, h) = absurd cc
top-sequence_end es (sequence ∷ q, h) = (q, h)

-- no document ends within a node
pub Open-document_end :
    (x : Node) (st : List Node) (es : List Event) → Open (x ∷ st) (document_end ∷ es) → ⊥
Open-document_end x st es ([], h) = absurd cc
Open-document_end x st es (y ∷ q, h) = absurd cc

pub Open-stream_end :
    (x : Node) (st : List Node) (es : List Event) → Open (x ∷ st) (stream_end ∷ es) → ⊥
Open-stream_end x st es ([], h) = absurd cc
Open-stream_end x st es (y ∷ q, h) = absurd cc

-- A part that has returned, at most at `n` events, with the stack still open.
abbrev pub Ends {ℓ} : {C : Type ℓ} → List Node → ℕ → Option (Parsed C) → Type 0
Ends st n none = ⊥
Ends st n (some p) = Open st p.rest × (length p.rest ≤ n)

pub Ends-mono {ℓ} :
    {C : Type ℓ} (st : List Node) (m n : ℕ) (r : Option (Parsed C))
    → m ≤ n
    → Ends st m r
    → Ends st n r
Ends-mono st m n none h e = e
Ends-mono st m n (some p) h (o, l) = (o, omega (arith, h, l))

pub Ends-suc {ℓ} :
    {C : Type ℓ} (st : List Node) (n : ℕ) (r : Option (Parsed C)) → Ends st n r → Ends st (suc n) r
Ends-suc st n r e = Ends-mono st n (suc n) r (omega arith) e

pub Ends-lift {ℓ} :
    {C : Type ℓ} (q st : List Node) (n : ℕ) (r : Option (Parsed C))
    → Ends (q ++ st) n r
    → Ends st n r
Ends-lift q st n none e = e
Ends-lift q st n (some p) (o, l) = (lift q st p.rest o, l)
