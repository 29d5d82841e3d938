-- ===== src/Receipts.antt =====
-- `InMemoryReceiptStore` of aggregator/service/receipt_store.rs: the receipts by id, their ids by
-- chat id and by deadline.
pub mod Tree
pub mod Types
pub mod Builder
pub mod Coherent
pub mod History
use phala_llm_router.Base.{
  ℕ, ltb, leb, Bool, true, false, List, [], ◌∷◌, Option, none, some, Text, text_eq, if◌then◌else◌,
}
use phala_llm_router.Dict
use phala_llm_router.Dict.{Dict}
use phala_llm_router.Expiry.{Buckets, hint, drop_expiry_hint}
use phala_llm_router.Json.{Value}

pub record ReceiptEvent : Type 0 where
  pub seq : ℕ
  pub event_type : Text
  pub fields : Value

pub record ReceiptSignature : Type 0 where
  pub algo : Text
  pub key_id : Text
  pub value_hex : Text

pub record Receipt : Type 0 where
  pub api_version : Text
  pub receipt_id : Text
  pub chat_id : Option Text
  pub model : Option Text
  pub workload_id : Text
  pub workload_keyset_digest : Text
  pub endpoint : Text
  pub method : Text
  pub served_at : ℕ
  pub event_log : List ReceiptEvent
  pub signature : ReceiptSignature

pub record ReceiptOwner : Type 0 where
  pub auth_token_sha256 : Text

pub record StoredReceipt : Type 0 where
  pub receipt : Receipt
  pub owner : Option ReceiptOwner
  pub expires_at : ℕ

pub record ReceiptStore : Type 0 where
  pub by_receipt : Dict StoredReceipt
  pub by_chat : Dict Text
  pub by_expiry : Buckets

abbrev pub no_receipts : ReceiptStore
no_receipts = record { by_receipt = []; by_chat = []; by_expiry = [] }

-- `by_chat.get(chat_id) == Some(receipt_id)`
abbrev points_at : Text → Option Text → Bool
points_at receipt_id none = false
points_at receipt_id (some id) = text_eq id receipt_id

unfoldable pub drop_chat_mapping : Option Text → Text → Dict Text → Dict Text
drop_chat_mapping none receipt_id by_chat = by_chat
drop_chat_mapping (some chat_id) receipt_id by_chat =
    if points_at receipt_id (Dict.get chat_id by_chat) then Dict.remove chat_id by_chat else by_chat

-- `by_receipt.remove(id)`, and the chat mapping of what was removed.
unfoldable pub unfile : Text → ReceiptStore → ReceiptStore
unfolding drop_chat_mapping
unfile id st = elim (Dict.get id st.by_receipt) [
  | none ↦ st
  | some entry ↦ record st {
    by_receipt = Dict.remove id st.by_receipt;
    by_chat = drop_chat_mapping entry.receipt.chat_id id st.by_chat;
  }
]

-- `remove`
unfoldable pub remove : ReceiptStore → Text → ReceiptStore
unfolding unfile
remove st id = elim (Dict.get id st.by_receipt) [
  | none ↦ st
  | some entry ↦ record (unfile id st) {
    by_expiry = drop_expiry_hint id entry.expires_at st.by_expiry;
  }
]

abbrev pub map_chat : Option Text → Text → Dict Text → Dict Text
map_chat none receipt_id by_chat = by_chat
map_chat (some chat_id) receipt_id by_chat = Dict.insert chat_id receipt_id by_chat

-- The rest of `insert`, the entry before it removed.
unfoldable pub file : ReceiptStore → StoredReceipt → ReceiptStore
file st s = record {
  by_receipt = Dict.insert s.receipt.receipt_id s st.by_receipt;
  by_chat = map_chat s.receipt.chat_id s.receipt.receipt_id st.by_chat;
  by_expiry = hint s.receipt.receipt_id s.expires_at st.by_expiry;
}

unfoldable pub insert : ReceiptStore → Receipt → Option ReceiptOwner → ℕ → ReceiptStore
unfolding file remove
insert st receipt owner expires_at =
    file (remove st receipt.receipt_id)
      (record { receipt = receipt; owner = owner; expires_at = expires_at })

unfoldable pub evict_ids : List Text → ReceiptStore → ReceiptStore
unfolding unfile
evict_ids [] st = st
evict_ids (id ∷ ids) st = evict_ids ids (unfile id st)

-- The loop of `evict_expired`.
unfoldable pub evict_buckets : ℕ → ReceiptStore → Buckets → ReceiptStore
unfolding evict_ids
evict_buckets now st [] = record st { by_expiry = [] }
evict_buckets now st ((expires_at, ids) ∷ b) =
    let later = evict_buckets now (evict_ids ids st) b in
    if ltb now expires_at then record st { by_expiry = (expires_at, ids) ∷ b } else later

unfoldable pub evict_expired : ReceiptStore → ℕ → ReceiptStore
unfolding evict_buckets
evict_expired st now = evict_buckets now st st.by_expiry

unfoldable pub put : ReceiptStore → Receipt → Option ReceiptOwner → ℕ → ℕ → ReceiptStore
unfolding insert evict_expired
put st receipt owner now expires_at = insert (evict_expired st now) receipt owner expires_at

-- What the three reads share: an entry whose deadline is reached is removed.
unfoldable pub read : ReceiptStore → Text → ℕ → ReceiptStore × Option StoredReceipt
unfolding remove
read st receipt_id now = elim (Dict.get receipt_id st.by_receipt) [
  | none ↦ (st, none)
  | some entry ↦ if leb entry.expires_at now then (remove st receipt_id, none) else (st, some entry)
]

abbrev pub receipt_of : Option StoredReceipt → Option Receipt
receipt_of none = none
receipt_of (some entry) = some entry.receipt

unfoldable pub get_by_receipt_id : ReceiptStore → Text → ℕ → ReceiptStore × Option Receipt
unfolding read
get_by_receipt_id st receipt_id now =
    ((read st receipt_id now).0, receipt_of (read st receipt_id now).1)

unfoldable pub get_by_chat_id : ReceiptStore → Text → ℕ → ReceiptStore × Option Receipt
unfolding read
get_by_chat_id st chat_id now = elim (Dict.get chat_id st.by_chat) [
  | none ↦ (st, none)
  | some receipt_id ↦ ((read st receipt_id now).0, receipt_of (read st receipt_id now).1)
]

abbrev owner_in : Option StoredReceipt → Option ReceiptOwner
owner_in none = none
owner_in (some entry) = entry.owner

unfoldable pub owner_of : ReceiptStore → Text → ℕ → ReceiptStore × Option ReceiptOwner
unfolding read
owner_of st receipt_id now = ((read st receipt_id now).0, owner_in (read st receipt_id now).1)
