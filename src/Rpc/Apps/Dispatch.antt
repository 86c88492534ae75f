-- ===== src/Rpc/Apps/Dispatch.antt =====
-- Class Server of design/nextboot-impl/hexrpcd.py: dispatch, and a round of run.
--
-- A round starts with what adsp_listener returns, a `Request`; `rest` is the reply to
-- get_in_bufs2 where the device is asked for more, and `none` where that call raises.
use y700_linux.Prelude.{
  ℕ, ◌+◌, ◌-◌, ◌/◌, ◌%◌, ◌^◌, ◌&&◌, Option, none, some, List, [], ◌∷◌, ◌++◌, ◌==◌, ltb, leb, length,
  take, drop, replicate, if◌then◌else◌,
}
use y700_linux.Rpc.Vfs.{text_eq, Vfs}
use y700_linux.Rpc.Frames.{unpack32, le32, decode_inbufs, encode_outbufs, fit, get_rest}
use y700_linux.Rpc.Apps.{
  efailed, eunsupported, map_pages, World, State, Answer, reply, raises, Served, require, perform,
  and_then, text_of, first_seq,
}
use y700_linux.Rpc.Apps.Paths.{unpack64}
use y700_linux.Rpc.Apps.Server.{Method, apps_std, inputs, caps_of, handle_apps}

-- 'remotectl', 'apps_std' and 'apps_mem'
abbrev pub ifaces : List (List ℕ)
ifaces =
    (114 ∷ 101 ∷ 109 ∷ 111 ∷ 116 ∷ 101 ∷ 99 ∷ 116 ∷ 108 ∷ [])
    ∷ (97 ∷ 112 ∷ 112 ∷ 115 ∷ 95 ∷ 115 ∷ 116 ∷ 100 ∷ [])
    ∷ (97 ∷ 112 ∷ 112 ∷ 115 ∷ 95 ∷ 109 ∷ 101 ∷ 109 ∷ [])
    ∷ []

-- (-5) & 0xffffffff
abbrev pub not_found_code : ℕ
not_found_code = 2 ^ 32 - 5

abbrev pub index_in : List (List ℕ) → List ℕ → ℕ → Option ℕ
index_in [] name i = none
index_in (x ∷ xs) name i = if text_eq x name then some i else index_in xs name (i + 1)

abbrev pub opened : Option ℕ → ℕ → Answer
opened none cap = reply not_found_code ((le32 0 ++ le32 not_found_code) ∷ replicate cap 0 ∷ [])
opened (some i) cap = reply 0 ((le32 i ++ le32 0) ∷ replicate cap 0 ∷ [])

unfoldable pub remotectl_open : World → List ℕ → List (List ℕ) → State → Served
remotectl_open w prim seqs s = require (first_seq seqs) s λ name.
    require (unpack32 (drop 4 prim)) s λ cap. (s, opened (index_in ifaces (text_of w name) 0) cap)

unfoldable pub remotectl_close : List ℕ → State → Served
remotectl_close prim s =
    require (unpack32 (drop 4 prim)) s λ cap. (s, reply 0 (le32 0 ∷ replicate cap 0 ∷ []))

-- request_map64: heap, lflags, rflags, pad, vin and the length; bit 12 is ADSP_MMAP_ADD_PAGES.
unfoldable pub request_map : World → List ℕ → State → Served
request_map w prim s = require (unpack32 (drop 8 prim)) s λ rflags.
    require (unpack64 (drop 24 prim)) s λ size.
      if rflags / 2 ^ 12 % 2 == 0
      then (s, reply eunsupported (replicate 16 0 ∷ []))
      else and_then (perform w (map_pages rflags size) s)
          λ s' vout d. (s', reply 0 ((le32 0 ++ (le32 0 ++ (le32 (vout % 2 ^ 32) ++ le32 0))) ∷ []))

abbrev pub unsupported : ℕ → State → Served
unsupported nout s = (s, reply eunsupported (replicate nout []))

abbrev pub apps_call : World → Vfs → Option Method → ℕ → List ℕ → List (List ℕ) → State → Served
apps_call w vfs none nout prim seqs s = unsupported nout s
apps_call w vfs (some m) nout prim seqs s =
    require (caps_of (inputs m) prim) s λ caps. handle_apps w vfs m prim seqs caps s

-- The interfaces, with the method and what is left of the primitive buffer.
unfoldable pub dispatch_to : World → Vfs → ℕ → ℕ → ℕ → List ℕ → List (List ℕ) → State → Served
dispatch_to w vfs handle method nout prim seqs s =
    if handle == 0 && method == 0
    then remotectl_open w prim seqs s
    else if handle == 0 && method == 1
    then remotectl_close prim s
    else if handle == 1
    then apps_call w vfs (apps_std method) nout prim seqs s
    else if handle == 2 && method == 2
    then request_map w prim s
    else unsupported nout s

abbrev pub head_seq : List (List ℕ) → List ℕ
head_seq [] = []
head_seq (b ∷ bs) = b

abbrev pub nin_of : ℕ → ℕ
nin_of sc = sc / 2 ^ 16 % 256

abbrev pub nout_of : ℕ → ℕ
nout_of sc = sc / 2 ^ 8 % 256

-- Method 31 stands for the number in the first word, where there is one.
unfoldable pub dispatch : World → Vfs → ℕ → ℕ → List (List ℕ) → State → Served
dispatch w vfs handle sc inbufs s =
    let prim = head_seq inbufs in
    let method = sc / 2 ^ 24 % 32 in
    if method == 31 && leb 4 (length prim)
    then (require (unpack32 prim) s
        λ m. dispatch_to w vfs handle m (nout_of sc) (drop 4 prim) (drop 1 inbufs) s)
    else dispatch_to w vfs handle method (nout_of sc) prim (drop 1 inbufs) s

pub record Request : Type 0 where
  pub handle : ℕ
  pub sc : ℕ
  pub inlen : ℕ
  pub inraw : List ℕ
  pub rest : Option (ℕ × List ℕ)

-- All that was sent, or none where it cannot be fetched.
abbrev pub fetch : ℕ → List ℕ → Option (ℕ × List ℕ) → Option (List ℕ)
fetch inlen inraw none = none
fetch inlen inraw (some (req, rest)) = get_rest (take 256 inraw) inlen req rest

abbrev pub received : Request → Option (List ℕ)
received r = if ltb 256 r.inlen then fetch r.inlen r.inraw r.rest else some r.inraw

abbrev pub caught : Served → State × (ℕ × List (List ℕ))
caught (s, reply result bufs) = (s, (result, bufs))
caught (s, raises) = (s, (efailed, []))

abbrev pub try_dispatch : World → Vfs → Request → Option (List (List ℕ)) → State → Served
try_dispatch w vfs r none s = (s, raises)
try_dispatch w vfs r (some inbufs) s = dispatch w vfs r.handle r.sc inbufs s

-- The result and the bytes that the next call of the listener takes; no bytes are struct.error,
-- which nothing catches.
abbrev pub sent : ℕ → State × (ℕ × List (List ℕ)) → State × (ℕ × Option (List ℕ))
sent nout (s, (result, bufs)) = (s, (result, encode_outbufs (fit nout bufs)))

abbrev pub serve_bytes :
    World → Vfs → Request → Option (List ℕ) → State → State × (ℕ × Option (List ℕ))
serve_bytes w vfs r none s = (s, (efailed, some []))
serve_bytes w vfs r (some bytes) s =
    sent (nout_of r.sc)
      (caught (try_dispatch w vfs r (decode_inbufs (take r.inlen bytes) (nin_of r.sc)) s))

-- A round of Server.run.
unfoldable pub serve : World → Vfs → Request → State → State × (ℕ × Option (List ℕ))
serve w vfs r s = serve_bytes w vfs r (received r) s

-- Rounds one after another.
unfoldable pub serve_all : World → Vfs → List Request → State → State
serve_all w vfs [] s = s
serve_all w vfs (r ∷ rs) s = serve_all w vfs rs (serve w vfs r s).0
