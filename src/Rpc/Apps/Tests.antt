-- ===== src/Rpc/Apps/Tests.antt =====
-- The file requests of hexrpcd.py on a concrete tree.
use y700_linux.Prelude.{
  ℕ, ◌+◌, ◌*◌, ◌^◌, ◌≤◌, ◌≡◌, refl, true, false, Option, none, some, List, [], ◌∷◌, ◌++◌, arith,
  All, length, replicate, ap, subst, length-replicate,
}
use y700_linux.Rpc.Vfs.{
  Vfs, local, writable, norm, walk, walk_all, split, join, pop, find, covers, starts_with, text_eq,
  path_join, rest_of, lstrip, any_covers,
}
use y700_linux.Rpc.Frames.{
  pack32, unpack32, le32, decode_from, decode_inbufs, encode_from, encode_outbufs, fit,
}
use y700_linux.Rpc.Apps.{Effect, make_dirs, read_file, Called, gives, World, file, State, fread}
use y700_linux.Rpc.Apps.Paths.{mkdir}
use y700_linux.Rpc.Apps.Server.{apps_std, inputs, handle_apps}
use y700_linux.Rpc.Apps.Dispatch.{nout_of, Request, dispatch, dispatch_to, serve, serve_all}
use y700_linux.Rpc.Apps.Confined.{EffectOk}
use y700_linux.Rpc.Apps.Rounds.{start, serve_all-EffectOk}
use y700_linux.Rpc.Apps.Sizes.{ReadsAtMost, Answers, fread_tells, serve-decodes}

-- /w is served from /d, and accepts writes.
abbrev tree : Vfs
tree = record { mapped = (47 ∷ 119 ∷ [], 47 ∷ 100 ∷ []) ∷ []; rw_keys = (47 ∷ 119 ∷ []) ∷ [] }

abbrev filled : Effect → ℕ → List ℕ
filled (read_file fd cap) n = replicate cap n
filled _ n = []

abbrev disk : World
disk = record {
  is_file = λ h p. true;
  exists = λ h p. true;
  is_dir = λ h p. false;
  names = λ h p. [];
  stat_of = λ h p. some (replicate 96 0);
  call = λ h e. gives 0 (filled e 7);
  decode = λ bytes. bytes;
  encode = λ text. text;
}

abbrev packed : Option (List ℕ) → List ℕ
packed none = []
packed (some bytes) = bytes

-- Method 31 with two buffers in and none out, as mkdir(/w/a).
abbrev mkdir_bytes : List ℕ
mkdir_bytes =
    packed (encode_outbufs ((le32 29 ++ (le32 4 ++ le32 0)) ∷ (47 ∷ 119 ∷ 47 ∷ 97 ∷ []) ∷ []))

-- The same outside the prefix that accepts writes.
abbrev outside_bytes : List ℕ
outside_bytes =
    packed (encode_outbufs ((le32 29 ++ (le32 4 ++ le32 0)) ∷ (47 ∷ 120 ∷ 47 ∷ 97 ∷ []) ∷ []))

abbrev request : List ℕ → Request
request bytes = record {
  handle = 1;
  sc = 31 * 2 ^ 24 + 2 * 2 ^ 16 + 2 ^ 8;
  inlen = 28;
  inraw = bytes;
  rest = none;
}

made :
    (serve_all disk tree (request mkdir_bytes ∷ request outside_bytes ∷ []) start).effects
    ≡ (make_dirs (47 ∷ 100 ∷ 47 ∷ 97 ∷ []) ∷ [])
unfolding serve_all serve dispatch dispatch_to apps_std inputs handle_apps mkdir encode_outbufs
    encode_from decode_inbufs decode_from unpack32 pack32 le32 local writable find covers any_covers
    norm walk walk_all split join pop path_join rest_of lstrip text_eq starts_with
made = refl

serve_all-EffectOk_example :
    All
      (EffectOk tree)
      (serve_all disk tree (request mkdir_bytes ∷ request outside_bytes ∷ []) start).effects
serve_all-EffectOk_example =
    serve_all-EffectOk tree disk (request mkdir_bytes ∷ request outside_bytes ∷ [])

abbrev bytes_of : Called → List ℕ
bytes_of (gives n bytes) = bytes
bytes_of _ = []

honest_disk : ReadsAtMost disk
honest_disk h fd cap n bytes e =
    subst (λ (b : List ℕ). length b ≤ cap) (ap bytes_of e)
      (ground (arith, length-replicate {A = ℕ} cap 7))

-- A read of two bytes from an open file.
abbrev reading : State
reading = record { fds = (1, file (47 ∷ []) true) ∷ []; next = 2; effects = [] }

fread_tells_example : Answers disk (le32 1) 2 reading (fread disk (le32 1) 2 reading).1
fread_tells_example = fread_tells disk honest_disk (le32 1) 2 reading

answered : (serve disk tree (request outside_bytes) start).1.1 ≡ some (0 ∷ 0 ∷ 0 ∷ 0 ∷ [])
unfolding serve dispatch dispatch_to apps_std inputs handle_apps mkdir encode_outbufs encode_from
    decode_inbufs decode_from unpack32 pack32 le32 local writable find covers any_covers norm walk
    walk_all split join pop path_join rest_of lstrip text_eq starts_with fit
answered = refl

serve-decodes_example :
    (bufs : List (List ℕ)) × (decode_inbufs
        (0 ∷ 0 ∷ 0 ∷ 0 ∷ [])
        (nout_of (request outside_bytes).sc)
      ≡ some bufs)
    × (length bufs ≡ nout_of (request outside_bytes).sc)
serve-decodes_example =
    serve-decodes tree disk (request outside_bytes) start outside_bytes (0 ∷ 0 ∷ 0 ∷ 0 ∷ []) refl
      answered
