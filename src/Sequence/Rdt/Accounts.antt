-- ===== src/Sequence/Rdt/Accounts.antt =====
-- What the tracker reports over a whole stream of sequence numbers.
use netft_cpp.Base.{ℕ, ◌+◌, ◌<◌, ◌^◌, ◌≡◌, true, List, [], ◌∷◌, All, arith, u32}
use netft_cpp.Sequence.Rdt.{SequenceKind, duplicate, out_of_order, RdtSequenceTracker, observe}

-- Sequence numbers taken as new, and sequence numbers reported lost.
pub record Tally : Type 0 where
  pub accepted : ℕ
  pub lost : ℕ
  pub last : RdtSequenceTracker

abbrev accepts : SequenceKind → ℕ
accepts duplicate = 0
accepts out_of_order = 0
accepts _ = 1

pub observe_all : RdtSequenceTracker → List ℕ → Tally
observe_all t [] = record { accepted = 0; lost = 0; last = t }
observe_all t (c ∷ cs) =
    let (o, t') = observe t c in
    let rest = observe_all t' cs in
    record { accepted = accepts o.kind + rest.accepted; lost = o.gap + rest.lost; last = rest.last }

abbrev IsU32 : ℕ → Type 0
IsU32 n = n < 2 ^ 32

observe_step :
    (t : RdtSequenceTracker) (c : ℕ)
    → t.has_last ≡ true
    → IsU32 t.previous
    → IsU32 c
    → ((observe t c).1.has_last ≡ true)
      × IsU32 (observe t c).1.previous
      × ((observe t c).1.previous
          ≡ u32 (t.previous + accepts (observe t c).0.kind + (observe t c).0.gap))
unfolding observe
observe_step t c e hp hc = ground arith

-- Once a record has been seen, whatever numbers arrive, in order or not: the numbers accepted and
-- the numbers reported lost add up, modulo 2 ^ 32, to how far the baseline has moved.
pub observe_all-accounts :
    (t : RdtSequenceTracker) (cs : List ℕ)
    → t.has_last ≡ true
    → IsU32 t.previous
    → All IsU32 cs
    → (observe_all t cs).last.previous
      ≡ u32 (t.previous + (observe_all t cs).accepted + (observe_all t cs).lost)
unfolding observe_all
observe_all-accounts t [] e hp h = omega arith
observe_all-accounts t (c ∷ cs) e hp h =
    let s = observe_step t c e hp h.0 in
    omega (arith, s, observe_all-accounts (observe t c).1 cs s.0 s.1 h.1)
