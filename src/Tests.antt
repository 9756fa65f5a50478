-- ===== src/Tests.antt =====
-- Concrete data for the examples: a database that is a list of rows, a cipher and a signature
-- scheme that hide nothing, and a JSON syntax that knows a single value.
pub mod Disks
pub mod Pools
pub mod Queues
pub mod Handlers
pub mod Saving
pub mod Restarts
pub mod Offline
pub mod Lives
pub mod Threads
pub mod Logged
use spectre_relay.Prelude.{
  ℕ, ◌≡◌, refl, sym, ap, zero, suc, ◌⊎◌, inl, inr, Bool, true, false, not, Option, none, some, List,
  [], ◌∷◌, ◌++◌, map, length, keep_if, Text, Bytes, codes, Result, ok, err, Error, other,
}
use spectre_relay.Prelude.Int.{ℤ, pos}
use spectre_relay.Crypto.{Aead, Ed25519}
use spectre_relay.Json.{Json, Syntax}
use spectre_relay.Files.{WriteEnv}
use spectre_relay.Store.Database.{
  Sqlite, Row, IsReliable, is_expired, without_expired, without_user, rows_for, scanned, Yields,
}
use spectre_relay.Store.{Store, EnqueueEnv}
use spectre_relay.Store.Messages.{QueuedMessage, sealed_message}
use spectre_relay.Envelope.{SealedEnvelope}
use spectre_relay.Router.{Router, DeliverEnv}

pub ok-inj : {A : Type 0} {a b : A} → ◌≡◌ {A = Result Error A} (ok a) (ok b) → b ≡ a
ok-inj h = cc

pub err-ok : {A : Type 0} {e : Error} {a : A} → ◌≡◌ {A = Result Error A} (err e) (ok a) → ⊥
err-ok h = cc

pub Yields-all : (rs : List Row) → Yields (map scanned rs) rs
Yields-all [] = tt
Yields-all (r ∷ rs) = (inl refl, Yields-all rs)

abbrev pub toy_sql : Sqlite
toy_sql = record {
  Db = List Row;
  rows = λ d. d;
  fresh = [];
  create_schema = λ d. ok d;
  delete_expired_for = λ user now d. ok (without_expired user now d);
  count_for = λ user d. ok (length (rows_for user d));
  insert_row = λ r d. ok (d ++ r ∷ []);
  begin_tx = λ d. ok d;
  select_for = λ user d. ok (map scanned (rows_for user d));
  delete_for = λ user d. ok (without_user user d);
  commit = λ d. ok d;
  delete_expired = λ now d. ok (keep_if (λ r. not (is_expired now r)) d);
  count_live = λ now d. ok (length (keep_if (λ r. not (is_expired now r)) d));
  serialize = λ d. err other;
  deserialize = λ b. err other;
  rows-fresh = refl;
  rows-create = λ d e h. ok-inj h;
  rows-delete_expired_for = λ user now d e h. ok-inj h;
  count_for_lem = λ user d n h. ok-inj h;
  rows-insert = λ r d e h. ok-inj h;
  rows-begin = λ d e h. ok-inj h;
  select_for_lem = λ user d l h. rw (ok-inj h) (Yields-all (rows_for user d));
  rows-delete_for = λ user d e h. ok-inj h;
  rows-commit = λ d e h. ok-inj h;
  rows-delete_expired = λ now d e h. ok-inj h;
  count_live_lem = λ now n d h. ok-inj h;
  deserialize-serialize = λ d b h. absurd (err-ok h);
}

pub toy_sql-IsReliable : IsReliable toy_sql
toy_sql-IsReliable = record {
  deletes_expired = λ user now d. (without_expired user now d, refl);
  counts = λ user d. (length (rows_for user d), refl);
  inserts = λ r d. (d ++ r ∷ [], refl);
  begins = λ d. (d, refl);
  selects = λ user d. refl;
  deletes = λ user d. (without_user user d, refl);
  commits = λ d. (d, refl);
}

abbrev pub toy_aead : Aead
toy_aead = record {
  nonce_size = 1;
  seal = λ key nonce plain. plain;
  open_sealed = λ key nonce text. some text;
  open-seal = λ key nonce plain h. refl;
}

-- The syntax in which one byte stands for the value.
abbrev pub toy_syntax : Json → Syntax
toy_syntax v = record {
  unmarshal = λ b. some v;
  marshal = λ w. ok (0 ∷ []);
  IsPrintable = λ w. w ≡ v;
  unmarshal-marshal = λ w h. (0 ∷ [], refl, ap some (sym h));
}

abbrev pub copies : ℕ → Bytes
copies zero = []
copies (suc n) = 7 ∷ copies n

pub length-copies : (n : ℕ) → length (copies n) ≡ n
length-copies zero = refl
length-copies (suc n) = ap suc (length-copies n)

abbrev pub toy_ed25519 : Ed25519
toy_ed25519 = record {
  IsPrivate = λ priv. length priv ≡ 64;
  public = λ priv. copies 32;
  sign = λ priv message. copies 64;
  verify = λ key message signature. true;
  length-private = λ priv h. h;
  verify-sign = λ priv message h. refl;
  length-public = λ priv h. length-copies 32;
  length-sign = λ priv message h. length-copies 64;
}

abbrev pub key_32 : Bytes
key_32 = copies 32

abbrev pub path : Text
path = codes "queue"

-- A write in which nothing fails.
abbrev pub calm : WriteEnv
calm = record {
  nonce = ok (5 ∷ []);
  temp = ok (codes "tmp");
  partial = [];
  write = none;
  chmod = none;
  close = none;
  rename = none;
  removed = true;
}

abbrev pub toy_store : Store toy_sql
toy_store = record {
  clients = (codes "bob", 3) ∷ [];
  db = [];
  queue_path = path;
  key = key_32;
  ttl = pos 1000000000;
  disk = [];
}

abbrev pub enqueue_env : EnqueueEnv
enqueue_env = record { sql_now = 5; now = 5000000000; nonce = ok (9 ∷ []); save_env = calm }

abbrev pub deliver_env : DeliverEnv
deliver_env = record { write = none; request = none; store = enqueue_env }

abbrev pub toy_router : Router toy_sql
toy_router = record {
  store = toy_store;
  max_message_size = 100;
  rate_per_min = 60;
  relay_id = codes "here";
  rate_attempts = [];
}

abbrev pub envelope : SealedEnvelope
envelope = record {
  recipient_id = codes "bob";
  ciphertext = 1 ∷ [];
  timestamp_ms = pos 4;
  id = codes "a";
  federation_sender_relay = [];
}

abbrev pub message : QueuedMessage
message = sealed_message envelope
