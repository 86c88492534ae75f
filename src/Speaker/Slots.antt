-- ===== src/Speaker/Slots.antt =====
-- A slot of the shared memory is free or in the hands of the DSP, never both, and never lost.
use y700_linux.Prelude.{
  ℕ, zero, suc, ◌+◌, ◌-◌, ◌≤◌, ◌<◌, ◌≡◌, subst, refl, inl, inr, true, false, ◌&&◌, ◌||◌, Option,
  none, some, List, [], ◌∷◌, ◌++◌, ◌==◌, arith, ltb, leb, length, if◌then◌else◌, if-cases,
  Bool-cases, false-ne-true,
}
use y700_linux.Speaker.{inflight}
use y700_linux.Speaker.Player.{
  slots, Player, opened, Message, has_token, set_token, del_token, can_submit, submit_to, submit,
  finish, finish_with, result_of, on_async, oldest, after_pump, received, pump, submit_all,
  play_turn, and_turns, play_turns,
}

abbrev pub count : ℕ → List ℕ → ℕ
count k [] = 0
count k (x ∷ xs) = (if x == k then 1 else 0) + count k xs

abbrev pub tokens : ℕ → List (ℕ × ℕ) → ℕ
tokens t [] = 0
tokens t ((u, at) ∷ busy) = (if u == t then 1 else 0) + tokens t busy

-- Every slot stands once, among the free ones or with its token among the busy ones; there are no
-- other tokens, at most `inflight` buffers are in flight, and the amplifiers start only behind two.
pub record SlotsOk (p : Player) : Type 0 where
  pub once : (k : ℕ) → count k p.free + tokens (256 + k) p.busy ≡ count k slots
  pub above : (t : ℕ) → t < 256 → tokens t p.busy ≡ 0
  pub few : length p.busy ≤ inflight
  pub started : p.prepared ≡ true → 2 ≤ p.done

tokens-set :
    (t u now : ℕ) (busy : List (ℕ × ℕ))
    → tokens u busy ≡ 0
    → tokens t (set_token u now busy) ≡ (if u == t then 1 else 0) + tokens t busy
unfolding set_token
tokens-set t u now [] h = refl
tokens-set t u now ((v, at) ∷ busy) h = ground (arith, tokens-set t u now busy)

length-set_token :
    (u now : ℕ) (busy : List (ℕ × ℕ))
    → tokens u busy ≡ 0
    → length (set_token u now busy) ≡ length busy + 1
unfolding set_token
length-set_token u now [] h = refl
length-set_token u now ((v, at) ∷ busy) h = ground (arith, length-set_token u now busy)

tokens-del :
    (t u : ℕ) (busy : List (ℕ × ℕ))
    → has_token u busy ≡ true
    → tokens t (del_token u busy) + (if u == t then 1 else 0) ≡ tokens t busy
unfolding del_token has_token
tokens-del t u [] h = ground (arith)
tokens-del t u ((v, at) ∷ busy) h = ground (arith, tokens-del t u busy)

length-del_token : (u : ℕ) (busy : List (ℕ × ℕ)) → length (del_token u busy) ≤ length busy
unfolding del_token
length-del_token u [] = ground (arith)
length-del_token u ((v, at) ∷ busy) = ground (arith, length-del_token u busy)

has-tokens : (u : ℕ) (busy : List (ℕ × ℕ)) → has_token u busy ≡ true → 1 ≤ tokens u busy
unfolding has_token
has-tokens u [] h = ground (arith)
has-tokens u ((v, at) ∷ busy) h = ground (arith, has-tokens u busy)

count_append : (k : ℕ) (xs ys : List ℕ) → count k (xs ++ ys) ≡ count k xs + count k ys
count_append k [] ys = ground (arith)
count_append k (x ∷ xs) ys = ground (arith, count_append k xs ys)

slots_once : (k : ℕ) → count k slots ≤ 1
slots_once k = ground (arith)

-- A free slot is not in flight.
free-unused :
    (p : Player) (k : ℕ) (ks : List ℕ) → SlotsOk p → p.free ≡ k ∷ ks → tokens (256 + k) p.busy ≡ 0
free-unused p k ks v e = ground (arith, v.once k, slots_once k, e)

submit-SlotsOk : (now : ℕ) (p : Player) → can_submit p ≡ true → SlotsOk p → SlotsOk (submit now p)
unfolding submit can_submit
submit-SlotsOk now p h v = go p.free refl
  where
    go : (free : List ℕ) → p.free ≡ free → SlotsOk (submit_to free now p)
    go [] e = v
    go (k ∷ ks) e = record {
      once = λ j.
          ground (
            arith,
            v.once j,
            e,
            tokens-set (256 + j) (256 + k) now p.busy (free-unused p k ks v e),
          );
      above = λ t lt.
          ground
            (arith, v.above t lt, lt, tokens-set t (256 + k) now p.busy (free-unused p k ks v e));
      few = ground (arith, h, length-set_token (256 + k) now p.busy (free-unused p k ks v e));
      started = v.started;
    }

finish-SlotsOk :
    (t status : ℕ) (p : Player)
    → has_token t p.busy ≡ true
    → SlotsOk p
    → SlotsOk (finish t status p)
finish-SlotsOk t status p h v = record {
  once = λ k. ground (
    arith,
    v.once k,
    big,
    count_append k p.free ((t - 256) ∷ []),
    tokens-del (256 + k) t p.busy h,
  );
  above = λ u lt. ground (arith, v.above u lt, tokens-del u t p.busy h);
  few = ground (arith, v.few, length-del_token t p.busy);
  started = λ s. ground (arith, v.started s);
}
  where
    big : 256 ≤ t
    big = ground (arith, v.above t, has-tokens t p.busy h)

-- A property of what a step returns, where it returns.
Holds : (Player → Type 0) → Option Player → Type 0
Holds P none = Unit
Holds P (some p) = P p

on_async-SlotsOk : (m : Message) (p : Player) → SlotsOk p → Holds SlotsOk (on_async m p)
unfolding on_async Holds
on_async-SlotsOk m p v = elim (Bool-cases (m.is_done && has_token m.token p.busy)) [
  | inl h ↦ rw h (finished m.status (ground (arith, h)))
  | inr h ↦ rw h (if-cases (Holds SlotsOk) m.is_result (λ _. plain m.status) (λ _. v))
]
  where
    finished :
        (s : Option ℕ) → has_token m.token p.busy ≡ true → Holds SlotsOk (finish_with m.token s p)
    finished none h = tt
    finished (some status) h = finish-SlotsOk m.token status p h v

    plain : (s : Option ℕ) → Holds SlotsOk (result_of s p)
    plain none = tt
    plain (some status) = if-cases (Holds SlotsOk) (status == 0) (λ _. v) (λ _. tt)

pump-SlotsOk :
    (m : Option Message) (now : ℕ) (p : Player) → SlotsOk p → Holds SlotsOk (pump m now p)
unfolding pump Holds
pump-SlotsOk m now p v = checked (received m p) (got m)
  where
    got : (o : Option Message) → Holds SlotsOk (received o p)
    got none = v
    got (some msg) = on_async-SlotsOk msg p v

    prepares :
        (q : Player) → SlotsOk q → SlotsOk (record q { prepared = q.prepared || leb 2 q.done })
    prepares q h = record {
      once = h.once;
      above = h.above;
      few = h.few;
      started = λ s. ground (arith, s, h.started);
    }

    checked : (r : Option Player) → Holds SlotsOk r → Holds SlotsOk (after_pump now r)
    checked none h = tt
    checked (some q) h =
        if-cases (Holds SlotsOk) (ltb 2000 (now - oldest q.busy now)) (λ _. tt) (λ _. prepares q h)

submit_all-SlotsOk : (fuel now : ℕ) (p : Player) → SlotsOk p → SlotsOk (submit_all fuel now p)
unfolding submit_all
submit_all-SlotsOk zero now p v = v
submit_all-SlotsOk (suc fuel) now p v = elim (Bool-cases (can_submit p)) [
  | inl h ↦ rw h (submit_all-SlotsOk fuel now (submit now p) (submit-SlotsOk now p h v))
  | inr h ↦ rw h v
]

play_turns-keeps :
    (ts : List (ℕ × Option Message)) (p : Player) → SlotsOk p → Holds SlotsOk (play_turns ts p)
unfolding play_turns Holds
play_turns-keeps [] p v = v
play_turns-keeps (t ∷ ts) p v =
    next (play_turn t p)
      (pump-SlotsOk t.1 t.0 (submit_all inflight t.0 p) (submit_all-SlotsOk inflight t.0 p v))
      (play_turns-keeps ts)
  where
    next :
        (r : Option Player)
        → Holds SlotsOk r
        → ((q : Player) → SlotsOk q → Holds SlotsOk (play_turns ts q))
        → Holds SlotsOk (and_turns r (play_turns ts))
    next none h k = tt
    next (some q) h k = k q h

opened-SlotsOk : SlotsOk opened
opened-SlotsOk = record {
  once = λ k. ground (arith);
  above = λ t lt. refl;
  few = ground (arith);
  started = λ s. absurd (false-ne-true s);
}

-- Over any turns of a session that go on, every slot stays accounted for: it is free or in flight
-- once, a token in flight is that of a slot, at most four buffers are in flight, and the amplifiers
-- are started only when two buffers have played.
pub play_turns-SlotsOk :
    (ts : List (ℕ × Option Message)) (p : Player) → play_turns ts opened ≡ some p → SlotsOk p
unfolding Holds
play_turns-SlotsOk ts p e = subst (Holds SlotsOk) e (play_turns-keeps ts opened opened-SlotsOk)

can-none : (p : Player) → inflight ≤ length p.busy → can_submit p ≡ false
unfolding can_submit
can-none p h = ground (arith)

length-submit :
    (now : ℕ) (p : Player)
    → can_submit p ≡ true
    → SlotsOk p
    → length (submit now p).busy ≡ length p.busy + 1
unfolding submit can_submit
length-submit now p h v = go p.free refl
  where
    go : (free : List ℕ) → p.free ≡ free → length (submit_to free now p).busy ≡ length p.busy + 1
    go [] e = absurd (false-ne-true (rw e at h))
    go (k ∷ ks) e = length-set_token (256 + k) now p.busy (free-unused p k ks v e)

-- The inner loop of play ends: with as much fuel as there is room in flight, nothing can be
-- submitted behind it. The slots are accounted for.
pub submit_all_ends :
    (fuel now : ℕ) (p : Player)
    → SlotsOk p
    → inflight ≤ length p.busy + fuel
    → can_submit (submit_all fuel now p) ≡ false
unfolding submit_all
submit_all_ends zero now p v h = can-none p (ground (arith))
submit_all_ends (suc fuel) now p v h = elim (Bool-cases (can_submit p)) [
  | inl can ↦ rw can (
      submit_all_ends fuel now (submit now p) (submit-SlotsOk now p can v)
        (ground (arith, length-submit now p can v)))
  | inr cannot ↦ rw cannot cannot
]
