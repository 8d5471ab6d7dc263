-- ===== src/Requests.antt =====
-- node/requestsCache.js: which hashes were requested, and until when to wait for them.
use cil_core.Base.{
  ℕ, ◌+◌, ◌≡◌, Bool, true, false, ◌&&◌, ◌||◌, not, none, some, [], ◌∷◌, arith, ltb, leb, ◌==◌,
  if◌then◌else◌,
}
use cil_core.JsMap.{Map, get, set, delete, size, get-set, get-delete}

-- `request`: whether to request, and the cache after it. `holdoff` is `INV_REQUEST_HOLDOFF`.
unfoldable pub request : ℕ → Map ℕ → ℕ → ℕ → Bool × Map ℕ
request holdoff m h now = elim (get m h) [
  | none ↦ (true, set m h (now + holdoff))
  | some till ↦ if ltb now till then (false, m) else (true, set m h (now + holdoff))
]

unfoldable pub is_requested : Map ℕ → ℕ → ℕ → Bool
is_requested m h now = elim (get m h) [ none ↦ false | some till ↦ not (till == 0) && ltb now till ]

unfoldable pub done : Map ℕ → ℕ → Map ℕ
done m h = delete m h

unfoldable pub purge_outdated : Map ℕ → ℕ → Map ℕ
purge_outdated [] now = []
purge_outdated ((h, till) ∷ m) now =
    if till == 0 || ltb till now then purge_outdated m now else (h, till) ∷ purge_outdated m now

unfoldable pub is_empty : Map ℕ → ℕ → Bool × Map ℕ
unfolding purge_outdated
is_empty m now = let m' = purge_outdated m now in (size m' == 0, m')

-- For every cache, hash and times: a hash that was just requested at `now` is requested again at `later`
-- exactly if the holdoff has passed by then, and is pending exactly until then.
request-request :
    (holdoff : ℕ) (m : Map ℕ) (h now later : ℕ)
    → (request holdoff m h now).0 ≡ true
    → ((request holdoff (request holdoff m h now).1 h later).0 ≡ leb (now + holdoff) later)
      × (is_requested (request holdoff m h now).1 h later ≡ ltb later (now + holdoff))
unfolding request is_requested
request-request holdoff m h now later r = ground (arith, get-set m h h (now + holdoff))

-- For every cache, hash and time: after `done` the hash is not pending, and a request of it is made.
request-done :
    (holdoff : ℕ) (m : Map ℕ) (h now : ℕ)
    → ((request holdoff (done m h) h now).0 ≡ true) × (is_requested (done m h) h now ≡ false)
unfolding request is_requested done
request-done holdoff m h now = ground (arith, get-delete m h h)

-- `_purgeOutdated` forgets no pending request: one that is pending stays pending.
is_requested-purge_outdated :
    (m : Map ℕ) (h now : ℕ)
    → is_requested m h now ≡ true
    → is_requested (purge_outdated m now) h now ≡ true
unfolding is_requested purge_outdated get
is_requested-purge_outdated [] h now r = r
is_requested-purge_outdated ((j, till) ∷ m) h now r =
    ground (arith, is_requested-purge_outdated m h now)
