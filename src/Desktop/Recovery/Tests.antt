-- ===== src/Desktop/Recovery/Tests.antt =====
-- Restarts of the desktop service, and instances of the theorems.
use y700_linux.Prelude.{◌≡◌, refl, true, false, none, some, [], ◌∷◌}
use y700_linux.Desktop.Recovery.{
  Doc, Owner, Rec, nothing, cleanup, restore, refuse, native_gone, other_boot, leftover,
  recovery_action,
}

abbrev owner : Owner
owner = record { pid = 412; starttime = 9001 }

-- Framebuffers 60 and 61 are the service's, 50 is the native one.
abbrev last_run : Rec
last_run = record { boot_id = 1; owner = owner; fbs = 61 ∷ 60 ∷ 60 ∷ [] }

recoveries :
    (recovery_action none 1 owner (50 ∷ []) 50 (50 ∷ []) ≡ nothing)
    × (recovery_action (some last_run) 1 owner (60 ∷ []) 50 (50 ∷ 60 ∷ 61 ∷ [])
        ≡ restore (60 ∷ 61 ∷ []))
    × (recovery_action (some last_run) 1 owner (50 ∷ []) 50 (50 ∷ 61 ∷ []) ≡ cleanup (61 ∷ []))
    × (recovery_action (some last_run) 2 owner (50 ∷ []) 50 (50 ∷ []) ≡ refuse other_boot)
    × (recovery_action (some last_run) 1 owner (60 ∷ []) 50 (60 ∷ []) ≡ refuse native_gone)
unfolding recovery_action leftover
recoveries = (refl, refl, refl, refl, refl)

abbrev booted : Doc
booted = record {
  boot_id = 1;
  runs =
      (record { stage = 4; is_ok = true } ∷ record { stage = 5; is_ok = false } ∷ [])
      ∷ (record { stage = 5; is_ok = true } ∷ [])
      ∷ [];
}
