-- ===== src/Storage/Locks/Liveness.antt =====
-- That the threads of EXPIRE and TTL (RediCraft-Server/src/storage.cpp) never all wait.
use redi_craft.Prelude.{
  ◌≡◌, refl, ap, ◌∙◌, ◌⊎◌, inl, inr, true, Option, none, some, List, [], ◌∷◌, ◌++◌, All,
}
use redi_craft.Storage.{Kind}
use redi_craft.Storage.Locks.{
  Mode, own, acquired, released, call, exclusive, shared, acquire, release,
}
use redi_craft.Storage.Locks.Threads.{Thread, Job, compatible, Step, Reach, IsFinished, turn}
use redi_craft.Storage.Locks.Guards.{
  guards, IsIdle, IsHolding, IsGuarded, threads, threads-IsGuarded, Reach-IsGuarded,
}

-- a list with a thread that has the property
data Find (P : Thread → Type 0) : List Thread → Type 0 where
  find : (before after : List Thread) (t : Thread) → P t → Find P (before ++ t ∷ after)

Find-cons : {P : Thread → Type 0} (x : Thread) (ts : List Thread) → Find P ts → Find P (x ∷ ts)
Find-cons x ts (find before after t p) = find (x ∷ before) after t p

split : (P Q : Thread → Type 0) (ts : List Thread) → All (λ t. P t ⊎ Q t) ts → All P ts ⊎ Find Q ts
split P Q [] h = inl tt
split P Q (t ∷ ts) (inr q, h) = inr (find [] ts t q)
split P Q (t ∷ ts) (inl p, h) = elim (split P Q ts h) [
  | inl all ↦ inl (p, all)
  | inr found ↦ inr (Find-cons t ts found)
]

CanStep : List Thread → Type 0
CanStep ts = (us : List Thread) × Step ts us

-- A thread inside a guard can always leave it.
holding-CanStep : (ts : List Thread) → Find IsHolding ts → CanStep ts
unfolding CanStep
holding-CanStep ts (find before after t h) = (
  before ++ record { owned = own h.kind none t.owned; calls = guards h.ahead } ∷ after,
  turn before after t (release h.mode h.kind) (guards h.ahead) (own h.kind none t.owned) h.plan
      (releases h.mode h.held) tt,
)
  where
    releases :
        (m : Mode)
        → t.owned h.kind ≡ some m
        → call (release m h.kind) t.owned ≡ some (own h.kind none t.owned)
    releases exclusive held = unfold call released in rw held refl
    releases shared held = unfold call released in rw held refl

-- a thread that has a guard ahead
record IsReady (t : Thread) : Type 0 where
  pub mode : Mode
  pub kind : Kind
  pub free : t.owned kind ≡ none
  pub ahead : List (Mode × Kind)
  pub plan : t.calls ≡ acquire mode kind ∷ release mode kind ∷ guards ahead

idle-cases : (t : Thread) → IsIdle t → (t.calls ≡ []) ⊎ IsReady t
idle-cases t idle = from idle.ahead idle.plan
  where
    from : (ps : List (Mode × Kind)) → t.calls ≡ guards ps → (t.calls ≡ []) ⊎ IsReady t
    from [] plan = inl plan
    from ((m, k) ∷ ps) plan =
        inr (record { mode = m; kind = k; free = idle.nothing k; ahead = ps; plan = plan })

All-map :
    {P Q : Thread → Type 0} (ts : List Thread) → ((t : Thread) → P t → Q t) → All P ts → All Q ts
All-map [] f h = tt
All-map (t ∷ ts) f (p, h) = (f t p, All-map ts f h)

All-others :
    (P : Thread → Type 0) (before after : List Thread) (t : Thread)
    → All P (before ++ t ∷ after)
    → All P (before ++ after)
All-others P [] after t (_, h) = h
All-others P (x ∷ before) after t (p, h) = (p, All-others P before after t h)

compatible-none : (o : Option Mode) → compatible o none ≡ true
compatible-none none = refl
compatible-none (some shared) = refl
compatible-none (some exclusive) = refl

-- Where no thread is inside a guard, one that has a guard ahead can enter it.
ready-CanStep : (ts : List Thread) → All IsIdle ts → Find IsReady ts → CanStep ts
unfolding CanStep
ready-CanStep ts idle (find before after t r) = (
  before
      ++ record {
        owned = own r.kind (some r.mode) t.owned;
        calls = release r.mode r.kind ∷ guards r.ahead;
      }
        ∷ after,
  turn before after t (acquire r.mode r.kind) (release r.mode r.kind ∷ guards r.ahead)
      (own r.kind (some r.mode) t.owned) r.plan (unfold call acquired in rw r.free refl)
      (All-map (before ++ after)
        (λ u i. ap (compatible (some r.mode)) (i.nothing r.kind) ∙ compatible-none (some r.mode))
        (All-others IsIdle before after t idle)),
)

guarded-progress : (ts : List Thread) → All IsGuarded ts → IsFinished ts ⊎ CanStep ts
guarded-progress ts h = elim (split IsIdle IsHolding ts h) [
  | inr found ↦ inr (holding-CanStep ts found)
  | inl idle ↦
      elim (split (λ t. t.calls ≡ []) IsReady ts (All-map ts (λ t i. idle-cases t i) idle)) [
        | inl done ↦ inl done
        | inr found ↦ inr (ready-CanStep ts idle found)
      ]
]

-- However the threads of any number of EXPIRE and TTL calls interleave, TTL on items that have not
-- expired: as long as one of them has a lock call to make, some thread can make its next one.
pub Reach-progress :
    (jobs : List Job) (ts : List Thread)
    → Reach (threads jobs) ts
    → IsFinished ts ⊎ ((us : List Thread) × Step ts us)
unfolding CanStep
Reach-progress jobs ts reach =
    guarded-progress ts (Reach-IsGuarded (threads jobs) ts reach (threads-IsGuarded jobs))
