-- ===== src/Storage/Locks/Guards.antt =====
-- What the threads of EXPIRE and TTL (RediCraft-Server/src/storage.cpp) own of the mutexes at each
-- moment.
use redi_craft.Prelude.{
  ◌≡◌, refl, sym, ap, ◌∙◌, ◌⊎◌, inl, inr, Bool, true, false, none, some, List, [], ◌∷◌, ◌++◌, map,
  if◌then◌else◌, Bool-cases, All,
}
use redi_craft.Storage.{Kind, strings, hashes, lists, sets}
use redi_craft.Storage.Locks.{
  Mode, Call, Owned, same_kind, own, acquired, released, call, guard_end, expire_calls, ttl_calls,
  all_kinds, exclusive, shared, acquire, release,
}
use redi_craft.Storage.Locks.Threads.{
  Thread, Job, start_thread, Step, Reach, expiring, timing, turn, here, next,
}

-- guard after guard: each locks a mutex and then releases it
abbrev pub guards : List (Mode × Kind) → List Call
guards [] = []
guards ((m, k) ∷ ps) = acquire m k ∷ release m k ∷ guards ps

expire_calls-guards :
    (found : Kind → Bool) (ks : List Kind)
    → (ps : List (Mode × Kind)) × (expire_calls found ks ≡ guards ps)
unfolding expire_calls
expire_calls-guards found [] = ([], refl)
expire_calls-guards found (k ∷ ks) =
    let (ps, e) = expire_calls-guards found ks in
    elim (Bool-cases (found k)) [
      | inl there ↦ ((exclusive, k) ∷ [], rw there refl)
      | inr absent ↦ ((exclusive, k) ∷ ps, rw (absent, e) refl)
    ]

ttl_calls-guards :
    (found : Kind → Bool) (ks : List Kind)
    → (ps : List (Mode × Kind)) × (ttl_calls found (λ k. false) ks ≡ guards ps)
unfolding ttl_calls guard_end
ttl_calls-guards found [] = ([], refl)
ttl_calls-guards found (k ∷ ks) =
    let (ps, e) = ttl_calls-guards found ks in
    elim (Bool-cases (found k)) [
      | inl there ↦ ((shared, k) ∷ [], rw there refl)
      | inr absent ↦ ((shared, k) ∷ ps, rw (absent, e) refl)
    ]

-- A thread between two guards, and one inside a guard.
pub record IsIdle (t : Thread) : Type 0 where
  pub nothing : (j : Kind) → t.owned j ≡ none
  pub ahead : List (Mode × Kind)
  pub plan : t.calls ≡ guards ahead

pub record IsHolding (t : Thread) : Type 0 where
  pub mode : Mode
  pub kind : Kind
  pub held : t.owned kind ≡ some mode
  pub nothing_else : (j : Kind) → same_kind kind j ≡ false → t.owned j ≡ none
  pub ahead : List (Mode × Kind)
  pub plan : t.calls ≡ release mode kind ∷ guards ahead

abbrev pub IsGuarded : Thread → Type 0
IsGuarded t = IsIdle t ⊎ IsHolding t

start_thread-IsGuarded : (job : Job) → IsGuarded (start_thread job)
unfolding start_thread
start_thread-IsGuarded (expiring found) =
    let (ps, e) = expire_calls-guards found all_kinds in
    inl (record { nothing = λ j. refl; ahead = ps; plan = e })
start_thread-IsGuarded (timing found) =
    let (ps, e) = ttl_calls-guards found all_kinds in
    inl (record { nothing = λ j. refl; ahead = ps; plan = e })

same_kind_refl : (k : Kind) → same_kind k k ≡ true
unfolding same_kind
same_kind_refl strings = refl
same_kind_refl hashes = refl
same_kind_refl lists = refl
same_kind_refl sets = refl

acquire-owned :
    (m : Mode) (k : Kind) (owned owned' : Owned)
    → owned k ≡ none
    → call (acquire m k) owned ≡ some owned'
    → (j : Kind) → owned' j ≡ (if same_kind k j then some m else owned j)
unfolding call acquired own
acquire-owned m k owned owned' free ok j =
    let e : own k (some m) owned ≡ owned' = cc (rw free at ok) in sym (ap (λ (o : Owned). o j) e)

release-owned :
    (m : Mode) (k : Kind) (owned owned' : Owned)
    → owned k ≡ some m
    → call (release m k) owned ≡ some owned'
    → (j : Kind) → owned' j ≡ (if same_kind k j then none else owned j)
unfolding call released own
release-owned exclusive k owned owned' held ok j =
    let e : own k none owned ≡ owned' = cc (rw held at ok) in sym (ap (λ (o : Owned). o j) e)
release-owned shared k owned owned' held ok j =
    let e : own k none owned ≡ owned' = cc (rw held at ok) in sym (ap (λ (o : Owned). o j) e)

-- What a thread is about to call, and what it owns behind that.
idle-call :
    (t : Thread) (c : Call) (rest : List Call) (owned : Owned) (ps : List (Mode × Kind))
    → ((j : Kind) → t.owned j ≡ none)
    → t.calls ≡ guards ps
    → t.calls ≡ c ∷ rest
    → call c t.owned ≡ some owned
    → IsHolding (record { owned = owned; calls = rest })
idle-call t c rest owned [] free plan e ok = absurd (cc (plan, e))
idle-call t c rest owned ((m, k) ∷ ps) free plan e ok =
    let is : c ≡ acquire m k = cc (plan, e) in
    let after : rest ≡ release m k ∷ guards ps = cc (plan, e) in
    let now = acquire-owned m k t.owned owned (free k) (rw is at ok) in
    record {
      mode = m;
      kind = k;
      held = now k ∙ rw (same_kind_refl k) refl;
      nothing_else = λ j other. now j ∙ rw other (free j);
      ahead = ps;
      plan = after;
    }

holding-call :
    (t : Thread) (c : Call) (rest : List Call) (owned : Owned)
    → t.calls ≡ c ∷ rest
    → call c t.owned ≡ some owned
    → (h : IsHolding t) → IsIdle (record { owned = owned; calls = rest })
holding-call t c rest owned e ok h =
    let is : c ≡ release h.mode h.kind = cc (h.plan, e) in
    let after : rest ≡ guards h.ahead = cc (h.plan, e) in
    let now = release-owned h.mode h.kind t.owned owned h.held (rw is at ok) in
    record {
      nothing = λ j. elim (Bool-cases (same_kind h.kind j)) [
        | inl same ↦ now j ∙ rw same refl
        | inr other ↦ now j ∙ rw other (h.nothing_else j other)
      ];
      ahead = h.ahead;
      plan = after;
    }

call-IsGuarded :
    (t : Thread) (c : Call) (rest : List Call) (owned : Owned)
    → t.calls ≡ c ∷ rest
    → call c t.owned ≡ some owned
    → IsGuarded t
    → IsGuarded (record { owned = owned; calls = rest })
call-IsGuarded t c rest owned e ok (inl idle) =
    inr (idle-call t c rest owned idle.ahead idle.nothing idle.plan e ok)
call-IsGuarded t c rest owned e ok (inr holding) = inl (holding-call t c rest owned e ok holding)

module _ (P : Thread → Type 0) where
  pub All-replace :
      (before after : List Thread) (t u : Thread)
      → All P (before ++ t ∷ after)
      → (P t → P u)
      → All P (before ++ u ∷ after)
  All-replace [] after t u (p, h) step = (step p, h)
  All-replace (x ∷ before) after t u (p, h) step = (p, All-replace before after t u h step)

Step-IsGuarded : (ts us : List Thread) → Step ts us → All IsGuarded ts → All IsGuarded us
Step-IsGuarded ts us (turn before after t c rest owned e ok allowed) h =
    All-replace IsGuarded before after t _ h (call-IsGuarded t c rest owned e ok)

-- the threads that run the jobs, before their first call
abbrev pub threads : List Job → List Thread
threads = map start_thread

pub threads-IsGuarded : (jobs : List Job) → All IsGuarded (threads jobs)
threads-IsGuarded [] = tt
threads-IsGuarded (job ∷ jobs) = (start_thread-IsGuarded job, threads-IsGuarded jobs)

pub Reach-IsGuarded : (ts us : List Thread) → Reach ts us → All IsGuarded ts → All IsGuarded us
Reach-IsGuarded ts us here h = h
Reach-IsGuarded ts us (next {us = vs} {vs = ws} before step) h =
    Step-IsGuarded vs ws step (Reach-IsGuarded ts vs before h)
