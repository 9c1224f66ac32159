-- ===== src/Mgmtlink/Store.antt =====
-- The peer table and its operations (internal/mgmtlink/store.go). The prefix column holds the text
-- of the prefix and the time columns RFC 3339 texts; they are held decoded, times in seconds.
use rezuscloud.Prelude.{
  ℕ, ◌+◌, ◌/◌, Bool, true, false, ◌&&◌, ◌||◌, not, Option, none, some, String, List, [], ◌∷◌, ◌++◌,
  ◌==◌, leb, eqb, if◌then◌else◌,
}
use Prim.Native.String.{◌++◌ as concat}
use Prim.Native.Char.{code}
use rezuscloud.Sql.{select_row, update_where}
use rezuscloud.Effects.{
  Result, ok, err, driver, no_rows, constraint, message, wrap, Exec, pure, raise, lift, attempt,
  context, query, exec, now, scan, ◌>>=◌, ◌>>◌,
}
use rezuscloud.Mgmtlink.Prefix.{NetPrefix, prefix_nth}

pub record PeerRow : Type 0 where
  pub identity : String
  pub node_uuid : String
  pub pubkey : String
  pub prefix : NetPrefix
  pub stream_port : ℕ
  pub idx : ℕ
  pub joined_at : ℕ
  pub last_seen : ℕ

pub record SettingRow : Type 0 where
  pub name : String
  pub value : String

-- mgmtlink_peers, with `identity` the PRIMARY KEY and `idx` UNIQUE, and mgmtlink_settings.
pub record LinkTables : Type 0 where
  pub peers : List PeerRow
  pub settings : List SettingRow

-- The struct `peer`; its stream address is the prefix's address and the port.
pub record Peer : Type 0 where
  pub identity : String
  pub node_uuid : String
  pub pubkey : String
  pub prefix : NetPrefix
  pub stream_port : ℕ
  pub joined_at : ℕ
  pub last_seen : ℕ

abbrev pub peer_key : PeerRow → String
peer_key r = r.identity

abbrev pub select_peer : String → LinkTables → Option PeerRow
select_peer identity t = select_row (λ r. identity == peer_key r) t.peers

abbrev pub index_taken : ℕ → List PeerRow → Bool
index_taken i [] = false
index_taken i (r ∷ rs) = eqb r.idx i || index_taken i rs

-- A text of the characters `0` and `-` alone.
unfoldable pub only_zeroes : String → Bool
only_zeroes String.[] = true
only_zeroes (String.◌∷◌ c s) =
    let rest = only_zeroes s in (eqb (code c) 48 || eqb (code c) 45) && rest

-- isZeroUUID: the lower case changes neither `0` nor `-`, nor makes one.
unfoldable pub is_zero_uuid : String → Bool
unfolding only_zeroes
is_zero_uuid s = only_zeroes s

-- `digest` is the hexadecimal text of the first 16 bytes of the SHA-256, `to_lower` is
-- strings.ToLower.
unfoldable pub identity_for : (String → String) → (String → String) → String → String → String
unfolding is_zero_uuid
identity_for digest to_lower uuid token =
    if not (uuid == "") && not (is_zero_uuid uuid)
    then concat "uuid:" (to_lower uuid)
    else concat "tok:" (digest (concat "tok:" token))

unfoldable pub peer_of : PeerRow → Peer
peer_of r = record {
  identity = r.identity;
  node_uuid = r.node_uuid;
  pubkey = r.pubkey;
  prefix = r.prefix;
  stream_port = r.stream_port;
  joined_at = r.joined_at;
  last_seen = r.last_seen;
}

-- SELECT MAX(idx): `none` for NULL.
unfoldable pub max_index : List PeerRow → Option ℕ
max_index [] = none
max_index (r ∷ rs) = elim (max_index rs) [
  | none ↦ some r.idx
  | some m ↦ some (if leb r.idx m then m else r.idx)
]

-- The result of nextIndex for what MAX(idx) is.
unfoldable pub index_after : Option ℕ → Result ℕ
index_after none = ok 1
index_after (some m) = if leb 65535 m then err (message "mgmtlink prefix exhausted") else ok (m + 1)

unfoldable pub next_index : Exec LinkTables ℕ
unfolding query max_index index_after
next_index = do m ← query (λ t. ok (max_index t.peers)); lift (index_after m)

unfoldable pub seconds : ℕ → ℕ
seconds t = t / 1000000000

unfoldable pub update_pubkey : String → String → ℕ → LinkTables → Result (Unit {0}) × LinkTables
update_pubkey identity pubkey at t = (
  ok tt,
  record t {
    peers =
        update_where (λ r. identity == peer_key r)
          (λ r. record r { pubkey = pubkey; last_seen = at }) t.peers;
  },
)

unfoldable pub insert_peer : PeerRow → LinkTables → Result (Unit {0}) × LinkTables
insert_peer row t = elim (select_peer row.identity t) [
  | some _ ↦ (err (driver constraint), t)
  | none ↦
      if index_taken row.idx t.peers
      then (err (driver constraint), t)
      else (ok tt, record t { peers = t.peers ++ row ∷ [] })
]

-- The case `err == nil`.
unfoldable pub found_peer : String → String → ℕ → PeerRow → Exec LinkTables (Peer × Bool)
unfolding peer_of exec
found_peer identity pubkey at row = if row.pubkey == pubkey then pure (peer_of row, false) else do
  context "update peer pubkey" (exec (update_pubkey identity pubkey at))
  pure (record (peer_of row) { pubkey = pubkey }, false)

abbrev pub new_row : String → String → String → NetPrefix → ℕ → ℕ → ℕ → PeerRow
new_row identity uuid pubkey prefix port idx at = record {
  identity = identity;
  node_uuid = uuid;
  pubkey = pubkey;
  prefix = prefix;
  stream_port = port;
  idx = idx;
  joined_at = at;
  last_seen = at;
}

-- The case `isNoRows(err)`; the struct returned has no times.
unfoldable pub allocate :
    String → String → String → NetPrefix → ℕ → ℕ → Exec LinkTables (Peer × Bool)
unfolding exec peer_of
allocate identity uuid pubkey prefix port at = do
  idx ← next_index
  node_prefix ← lift (prefix_nth prefix idx)
  let row = new_row identity uuid pubkey node_prefix port idx at
  context "insert peer" (exec (insert_peer row))
  pure (record (peer_of row) { joined_at = 0; last_seen = 0 }, true)

-- The switch of findOrAllocate.
unfoldable pub located :
    String → String → String → NetPrefix → ℕ → ℕ → Result PeerRow → Exec LinkTables (Peer × Bool)
located identity uuid pubkey prefix port at (ok row) = found_peer identity pubkey at row
located identity uuid pubkey prefix port at (err (driver no_rows)) =
    allocate identity uuid pubkey prefix port at
located identity uuid pubkey prefix port at (err e) = raise (wrap "query peer" e)

unfoldable pub find_or_allocate :
    String → String → String → NetPrefix → ℕ → Exec LinkTables (Peer × Bool)
unfolding query now seconds
find_or_allocate identity uuid pubkey prefix port = do
  at ← now
  found ← attempt (query (λ t. scan (select_peer identity t)))
  located identity uuid pubkey prefix port (seconds at) found

unfoldable pub touch_rows : String → ℕ → LinkTables → Result (Unit {0}) × LinkTables
touch_rows identity at t = (
  ok tt,
  record t {
    peers = update_where (λ r. identity == peer_key r) (λ r. record r { last_seen = at }) t.peers;
  },
)

-- The error is dropped.
unfoldable pub touch : String → Exec LinkTables (Unit {0})
unfolding now seconds exec
touch identity = do at ← now; attempt (exec (touch_rows identity (seconds at))); pure tt

abbrev pub setting_key : SettingRow → String
setting_key r = r.name

unfoldable pub upsert_setting : SettingRow → LinkTables → Result (Unit {0}) × LinkTables
upsert_setting row t = (
  ok tt,
  record t {
    settings = elim (select_row (λ r. row.name == setting_key r) t.settings) [
      | none ↦ t.settings ++ row ∷ []
      | some _ ↦
          update_where (λ r. row.name == setting_key r) (λ r. record r { value = row.value })
            t.settings
    ];
  },
)

unfoldable pub set_setting : String → String → Exec LinkTables (Unit {0})
unfolding exec
set_setting key value = exec (upsert_setting (record { name = key; value = value }))

unfoldable pub read_setting : Result SettingRow → Exec LinkTables String
read_setting (ok r) = pure r.value
read_setting (err (driver no_rows)) = pure ""
read_setting (err e) = raise e

unfoldable pub setting : String → Exec LinkTables String
unfolding query read_setting
setting key = do
  found ← attempt (query (λ t. scan (select_row (λ r. key == setting_key r) t.settings)))
  read_setting found
