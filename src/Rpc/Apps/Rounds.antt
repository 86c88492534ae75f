-- ===== src/Rpc/Apps/Rounds.antt =====
-- Over any rounds, hexrpcd.py changes only files below a prefix that accepts writes, and gives a number
-- that no open file has.
use y700_linux.Prelude.{
  ℕ, ◌<◌, ◌≡◌, ◌&&◌, ◌/◌, ◌%◌, ◌^◌, refl, Option, none, some, List, [], ◌∷◌, ◌++◌, ◌==◌, arith, leb,
  if◌then◌else◌, if-cases, All, length, take, drop,
}
use y700_linux.Rpc.Vfs.{slash, Vfs, local, starts_with}
use y700_linux.Rpc.Frames.{unpack32, decode_inbufs}
use y700_linux.Rpc.Apps.{
  map_pages, World, Obj, State, reply, raises, Served, get_fd, first_seq, text_of,
}
use y700_linux.Rpc.Apps.Paths.{truthy, library_dir, listing, unpack64}
use y700_linux.Rpc.Apps.Server.{
  fflush_m, fclose_m, fread_m, fwrite_m, ftell_m, fseek_m, flen_m, fopen_m, file_exists_m, fsync_m,
  fremove_m, opendir_m, closedir_m, readdir_m, mkdir_m, stat_m, ftrunc_m, frename_m, Method,
  file_exists, stat, handle_apps, apps_std, inputs, caps_of, first_cap, reply_stat, exists_at,
  is_listed,
}
use y700_linux.Rpc.Apps.Dispatch.{
  remotectl_open, remotectl_close, request_map, apps_call, dispatch_to, dispatch, nout_of, nin_of,
  head_seq, Request, caught, sent, try_dispatch, serve_bytes, serve, serve_all, received,
}
use y700_linux.Rpc.Apps.Confined.{EffectOk, IsValid, Good, good, require-Good}
use y700_linux.Rpc.Apps.Handlers.{
  call-Good, fread-Good, fclose-Good, fseek-Good, fwrite-Good, ftrunc-Good, fsync-Good, ftell-Good,
  flen-Good, fopen-Good, opendir-Good, closedir-Good, readdir-Good, fremove-Good, frename-Good,
  mkdir-Good,
}

module _ (vfs : Vfs) (w : World) where
  file_exists-Good :
      (seqs : List (List ℕ)) (s : State) → IsValid vfs s → Good vfs (file_exists w vfs seqs s)
  unfolding file_exists
  file_exists-Good seqs s v = require-Good vfs (first_seq seqs) s _ v (λ _ _. good vfs _ _ v)

  reply_stat-Good : (st : Option (List ℕ)) (s : State) → IsValid vfs s → Good vfs (reply_stat st s)
  reply_stat-Good st s v = require-Good vfs st s _ v (λ _ _. good vfs _ _ v)

  stat-Good : (seqs : List (List ℕ)) (s : State) → IsValid vfs s → Good vfs (stat w vfs seqs s)
  unfolding stat
  stat-Good seqs s v = require-Good vfs (first_seq seqs) s _ v λ q _.
      let name = text_of w q in
      let p =
        truthy (
          local vfs
            (if starts_with (slash ∷ []) name then name else library_dir ++ slash ∷ name)) in
      if-cases (Good vfs) (exists_at w s p)
        (λ _. require-Good vfs p s _ v (λ path _. reply_stat-Good (w.stat_of s.effects path) s v))
        (λ _.
          if-cases (Good vfs) (is_listed (listing w vfs name s))
            (λ _. reply_stat-Good (w.stat_of s.effects (slash ∷ [])) s v) (λ _. good vfs _ _ v))

  handle_apps-Good :
      (m : Method) (prim : List ℕ) (seqs : List (List ℕ)) (caps : List ℕ) (s : State)
      → IsValid vfs s
      → Good vfs (handle_apps w vfs m prim seqs caps s)
  unfolding handle_apps
  handle_apps-Good fflush_m prim seqs caps s v = good vfs _ _ v
  handle_apps-Good fclose_m prim seqs caps s v = fclose-Good vfs w prim s v
  handle_apps-Good fread_m prim seqs caps s v =
      require-Good vfs (first_cap caps) s _ v (λ n _. fread-Good vfs w prim n s v)
  handle_apps-Good fwrite_m prim seqs caps s v = fwrite-Good vfs w prim seqs s v
  handle_apps-Good ftell_m prim seqs caps s v = ftell-Good vfs w prim s v
  handle_apps-Good fseek_m prim seqs caps s v = fseek-Good vfs w prim s v
  handle_apps-Good flen_m prim seqs caps s v = flen-Good vfs w prim s v
  handle_apps-Good fopen_m prim seqs caps s v = fopen-Good vfs w seqs s v
  handle_apps-Good file_exists_m prim seqs caps s v = file_exists-Good seqs s v
  handle_apps-Good fsync_m prim seqs caps s v = fsync-Good vfs w prim s v
  handle_apps-Good fremove_m prim seqs caps s v = fremove-Good vfs w seqs s v
  handle_apps-Good opendir_m prim seqs caps s v = opendir-Good vfs w seqs s v
  handle_apps-Good closedir_m prim seqs caps s v = closedir-Good vfs w prim s v
  handle_apps-Good readdir_m prim seqs caps s v = readdir-Good vfs w prim s v
  handle_apps-Good mkdir_m prim seqs caps s v = mkdir-Good vfs w seqs s v
  handle_apps-Good stat_m prim seqs caps s v = stat-Good seqs s v
  handle_apps-Good ftrunc_m prim seqs caps s v = ftrunc-Good vfs w prim s v
  handle_apps-Good frename_m prim seqs caps s v = frename-Good vfs w seqs s v

  apps_call-Good :
      (o : Option Method) (nout : ℕ) (prim : List ℕ) (seqs : List (List ℕ)) (s : State)
      → IsValid vfs s
      → Good vfs (apps_call w vfs o nout prim seqs s)
  apps_call-Good none nout prim seqs s v = good vfs _ _ v
  apps_call-Good (some m) nout prim seqs s v =
      require-Good vfs (caps_of (inputs m) prim) s _ v
        (λ caps _. handle_apps-Good m prim seqs caps s v)

  request_map-Good : (prim : List ℕ) (s : State) → IsValid vfs s → Good vfs (request_map w prim s)
  unfolding request_map
  request_map-Good prim s v = require-Good vfs (unpack32 (drop 8 prim)) s _ v λ rflags _.
      require-Good vfs (unpack64 (drop 24 prim)) s _ v λ size _.
        if-cases (Good vfs) (rflags / 2 ^ 12 % 2 == 0) (λ _. good vfs _ _ v)
          (λ _. call-Good vfs w (map_pages rflags size) s _ tt v (λ s' vout d v'. good vfs _ _ v'))

  dispatch_to-Good :
      (handle method nout : ℕ) (prim : List ℕ) (seqs : List (List ℕ)) (s : State)
      → IsValid vfs s
      → Good vfs (dispatch_to w vfs handle method nout prim seqs s)
  unfolding dispatch_to remotectl_open remotectl_close
  dispatch_to-Good handle method nout prim seqs s v =
      if-cases (Good vfs) (handle == 0 && method == 0)
        (λ _.
          require-Good vfs (first_seq seqs) s _ v
            λ name _. require-Good vfs (unpack32 (drop 4 prim)) s _ v (λ _ _. good vfs _ _ v))
        (λ _.
          if-cases (Good vfs) (handle == 0 && method == 1)
            (λ _. require-Good vfs (unpack32 (drop 4 prim)) s _ v (λ _ _. good vfs _ _ v))
            (λ _.
              if-cases (Good vfs) (handle == 1)
                (λ _. apps_call-Good (apps_std method) nout prim seqs s v)
                (λ _.
                  if-cases (Good vfs) (handle == 2 && method == 2) (λ _. request_map-Good prim s v)
                    (λ _. good vfs _ _ v))))

  dispatch-Good :
      (handle sc : ℕ) (inbufs : List (List ℕ)) (s : State)
      → IsValid vfs s
      → Good vfs (dispatch w vfs handle sc inbufs s)
  unfolding dispatch
  dispatch-Good handle sc inbufs s v =
      let prim = head_seq inbufs in
      let seqs = drop 1 inbufs in
      if-cases (Good vfs) (sc / 2 ^ 24 % 32 == 31 && leb 4 (length prim))
        (λ _.
          require-Good vfs (unpack32 prim) s _ v
            (λ m _. dispatch_to-Good handle m (nout_of sc) (drop 4 prim) seqs s v))
        (λ _. dispatch_to-Good handle (sc / 2 ^ 24 % 32) (nout_of sc) prim seqs s v)

  serve-IsValid : (r : Request) (s : State) → IsValid vfs s → IsValid vfs (serve w vfs r s).0
  unfolding serve Good
  serve-IsValid r s v = bytes (received r)
    where
      kept : (n : ℕ) (q : Served) → Good vfs q → IsValid vfs (sent n (caught q)).0
      kept n (s', reply result bufs) h = h
      kept n (s', raises) h = h

      bufs : (o : Option (List (List ℕ))) → Good vfs (try_dispatch w vfs r o s)
      bufs none = v
      bufs (some inbufs) = dispatch-Good r.handle r.sc inbufs s v

      bytes : (o : Option (List ℕ)) → IsValid vfs (serve_bytes w vfs r o s).0
      bytes none = v
      bytes (some got) =
          let inbufs = decode_inbufs (take r.inlen got) (nin_of r.sc) in
          kept (nout_of r.sc) (try_dispatch w vfs r inbufs s) (bufs inbufs)

  serve_all-IsValid :
      (rs : List Request) (s : State) → IsValid vfs s → IsValid vfs (serve_all w vfs rs s)
  unfolding serve_all
  serve_all-IsValid [] s v = v
  serve_all-IsValid (r ∷ rs) s v = serve_all-IsValid rs (serve w vfs r s).0 (serve-IsValid r s v)

-- The server as it starts.
abbrev pub start : State
start = record { fds = []; next = 1; effects = [] }

-- Whatever the requests are, and whatever the file system answers, every change that the server
-- makes, by opening for writing, writing, truncating, removing, renaming or making a directory, is
-- at the local path of a virtual path below a prefix that accepts writes.
pub serve_all-EffectOk :
    (vfs : Vfs) (w : World) (rs : List Request)
    → All (EffectOk vfs) (serve_all w vfs rs start).effects
serve_all-EffectOk vfs w rs = (serve_all-IsValid vfs w rs start (tt, tt, tt)).0

-- Whatever the requests are, the number that the server gives next is not that of an open file or
-- directory.
pub serve_all-unused :
    (vfs : Vfs) (w : World) (rs : List Request)
    → let s = serve_all w vfs rs start in get_fd s.next s.fds ≡ none
unfolding get_fd
serve_all-unused vfs w rs = free _ _ (serve_all-IsValid vfs w rs start (tt, tt, tt)).2
  where
    free : (n : ℕ) (fds : List (ℕ × Obj)) → All (λ (f : ℕ × Obj). f.0 < n) fds → get_fd n fds ≡ none
    free n [] h = refl
    free n ((k, o) ∷ fds) h = ground (arith, free n fds h.1, h.0)
