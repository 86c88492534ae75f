-- ===== src/Desktop/Recovery/Laws.antt =====
-- What the recovery of desktop-service.py may touch.
use y700_linux.Prelude.{
  ℕ, ◌≡◌, ◌⊎◌, refl, Bool, true, false, ◌&&◌, ◌||◌, not, Option, none, some, List, [], ◌∷◌, ◌++◌,
  ◌==◌, elem, if◌then◌else◌, arith, Bool-cases, inl, inr,
}
use y700_linux.Desktop.Recovery.{
  Doc, Step, bringup_ready, ok_stages, all_ok_stages, all_in, Owner, Rec, Recovery, nothing,
  cleanup, restore, refuse, insert_set, leftover, all_native, all_known, is_ours, recovery_action,
}

elem-insert_set :
    (a x : ℕ) (ys : List ℕ) → elem a (insert_set x ys) ≡ (if x == a then true else elem a ys)
elem-insert_set a x [] = refl
elem-insert_set a x (y ∷ ys) = ground (arith, elem-insert_set a x ys)

-- The framebuffers that are left over are exactly the recorded ones that still exist.
pub elem-leftover :
    (a : ℕ) (fs existing : List ℕ) → elem a (leftover fs existing) ≡ (elem a fs && elem a existing)
unfolding leftover
elem-leftover a [] existing = refl
elem-leftover a (f ∷ fs) existing =
    ground (arith, elem-leftover a fs existing, elem-insert_set a f (leftover fs existing))

-- The framebuffers that an answer removes.
abbrev pub removed : Recovery → List ℕ
removed nothing = []
removed (cleanup fs) = fs
removed (restore fs) = fs
removed (refuse why) = []

abbrev pub is_refusal : Recovery → Bool
is_refusal nothing = false
is_refusal (cleanup fs) = false
is_refusal (restore fs) = false
is_refusal (refuse why) = true

-- The framebuffers that a record lists.
abbrev pub recorded : Option Rec → List ℕ
recorded none = []
recorded (some r) = r.fbs

-- A record of another boot or another owner; without a record there is nothing to distrust.
abbrev pub is_foreign : Option Rec → ℕ → Owner → Bool
is_foreign none boot owner = false
is_foreign (some r) boot owner = not (is_ours r boot owner)

all_native→all_known :
    (native : ℕ) (known planes : List ℕ)
    → all_native native planes ≡ true
    → all_known native known planes ≡ true
all_native→all_known native known [] h = refl
all_native→all_known native known (f ∷ fs) h = ground (arith, all_native→all_known native known fs)

all_known-nil :
    (native : ℕ) (planes : List ℕ) → all_known native [] planes ≡ all_native native planes
all_known-nil native [] = refl
all_known-nil native (f ∷ fs) = ground (arith, all_known-nil native fs)

-- The recovery goes on exactly when the record, if there is one, is of this boot and this owner, the
-- native framebuffer exists, and every plane shows it or a framebuffer of the record.
pub recovery_refuses :
    (rec : Option Rec) (boot : ℕ) (owner : Owner) (planes : List ℕ) (native : ℕ) (existing : List ℕ)
    → is_refusal (recovery_action rec boot owner planes native existing) ≡ (
        is_foreign rec boot owner
        || (not (elem native existing) || not (all_known native (recorded rec) planes)))
unfolding recovery_action
recovery_refuses none boot owner planes native existing =
    ground (arith, all_known-nil native planes)
recovery_refuses (some r) boot owner planes native existing =
    ground (arith, all_native→all_known native r.fbs planes)

-- What the recovery removes is nothing where it refuses, and otherwise exactly the framebuffers
-- that the record lists and that still exist.
pub removed_exact :
    (rec : Option Rec) (boot : ℕ) (owner : Owner) (planes : List ℕ) (native : ℕ) (existing : List ℕ)
    (f : ℕ)
    → elem f (removed (recovery_action rec boot owner planes native existing)) ≡ (
        not (is_refusal (recovery_action rec boot owner planes native existing))
        && (elem f (recorded rec) && elem f existing))
unfolding recovery_action
removed_exact none boot owner planes native existing f = ground arith
removed_exact (some r) boot owner planes native existing f =
    ground (arith, elem-leftover f r.fbs existing)

-- A step of the run has this stage and ended 'ok'.
abbrev pub HasOk : ℕ → List Step → Type 0
HasOk n [] = ⊥
HasOk n (s ∷ ss) = (s.stage ≡ n) × (s.is_ok ≡ true) ⊎ HasOk n ss

-- Some run of the document has a step of this stage that ended 'ok'.
abbrev pub IsDone : ℕ → List (List Step) → Type 0
IsDone n [] = ⊥
IsDone n (r ∷ rs) = HasOk n r ⊎ IsDone n rs

ok_stages-HasOk : (n : ℕ) (r : List Step) → elem n (ok_stages r) ≡ true → HasOk n r
unfolding ok_stages
ok_stages-HasOk n [] h = cc
ok_stages-HasOk n (s ∷ ss) h = ground (arith, ok_stages-HasOk n ss)

elem-append : (n : ℕ) (a b : List ℕ) → elem n (a ++ b) ≡ (elem n a || elem n b)
elem-append n [] b = refl
elem-append n (x ∷ a) b = ground (arith, elem-append n a b)

all_ok_stages-IsDone :
    (n : ℕ) (rs : List (List Step)) → elem n (all_ok_stages rs) ≡ true → IsDone n rs
unfolding all_ok_stages
all_ok_stages-IsDone n [] h = cc
all_ok_stages-IsDone n (r ∷ rs) h = elim (Bool-cases (elem n (ok_stages r))) [
  | inl e ↦ inl (ok_stages-HasOk n r e)
  | inr e ↦
      inr
        (all_ok_stages-IsDone n rs (ground (arith, elem-append n (ok_stages r) (all_ok_stages rs))))
]

all_in-elem :
    (n : ℕ) (need ok : List ℕ) → all_in need ok ≡ true → elem n need ≡ true → elem n ok ≡ true
all_in-elem n [] ok h e = cc
all_in-elem n (x ∷ need) ok h e = ground (arith, all_in-elem n need ok)

-- Where the bring-up counts as ready, there is a document, it is of this boot, and each needed stage
-- has a step in one of its runs that ended 'ok'.
pub bringup_ready-IsDone :
    (doc : Option Doc) (boot : ℕ) (need : List ℕ) (n : ℕ)
    → bringup_ready doc boot need ≡ true
    → elem n need ≡ true
    → (d : Doc) × (doc ≡ some d) × (d.boot_id ≡ boot) × IsDone n d.runs
unfolding bringup_ready
bringup_ready-IsDone none boot need n h e = cc
bringup_ready-IsDone (some d) boot need n h e =
    let both : (d.boot_id ≡ boot) × (all_in need (all_ok_stages d.runs) ≡ true) = ground arith in
    (
      d,
      refl,
      both.0,
      all_ok_stages-IsDone n d.runs (all_in-elem n need (all_ok_stages d.runs) both.1 e),
    )
