-- ===== src/Receipts/Coherent.antt =====
-- In a coherent store a chat id is mapped to a stored receipt of that chat; each operation keeps it so.
use phala_llm_router.Base.{
  ℕ, ltb, leb, Bool, true, false, List, [], ◌∷◌, Option, none, some, Text, text_eq, text_discrete,
  ite, ◌≡◌, refl, arith, Bool-cases, Option-cases, inl, inr,
}
use phala_llm_router.Dict
use phala_llm_router.Dict.{Dict, get-insert, get-remove}
use phala_llm_router.Expiry.{Buckets}
use phala_llm_router.Receipts.{
  Receipt, ReceiptOwner, StoredReceipt, ReceiptStore, no_receipts, drop_chat_mapping, unfile,
  remove, map_chat, file, insert, evict_ids, evict_buckets, evict_expired, put, read,
}

abbrev pub chat_is : Text → Option Text → Bool
chat_is c none = false
chat_is c (some d) = ite (text_discrete d c) true false

-- The entry is there, and is of the chat.
abbrev of_chat : Text → Option StoredReceipt → Bool
of_chat c none = false
of_chat c (some s) = chat_is c s.receipt.chat_id

abbrev pub filed_as : Text → Option StoredReceipt → Bool
filed_as id none = true
filed_as id (some s) = ite (text_discrete s.receipt.receipt_id id) true false

abbrev pub mapped : Text → Option Text → Dict StoredReceipt → Bool
mapped c none m = true
mapped c (some id) m = of_chat c (Dict.get id m)

pub record IsCoherent (st : ReceiptStore) : Type 0 where
  pub chats : (c : Text) → mapped c (Dict.get c st.by_chat) st.by_receipt ≡ true
  pub filed : (id : Text) → filed_as id (Dict.get id st.by_receipt) ≡ true

pub no_receipts-IsCoherent : IsCoherent no_receipts
unfolding Dict.get
no_receipts-IsCoherent = record { chats = λ c. refl; filed = λ id. refl }

unfile-mapped :
    (id c : Text) (s : StoredReceipt) (o : Option Text) (st : ReceiptStore)
    → Dict.get id st.by_receipt ≡ some s
    → s.receipt.chat_id ≡ o
    → mapped c (Dict.get c st.by_chat) st.by_receipt ≡ true
    → mapped c (Dict.get c (drop_chat_mapping o id st.by_chat)) (Dict.remove id st.by_receipt)
      ≡ true
unfolding drop_chat_mapping text_eq
unfile-mapped id c s none st e k v = elim (Option-cases (Dict.get c st.by_chat)) [
  | inl f ↦ rw f refl
  | inr (r, f) ↦ rw f (ground (arith, rw f at v, get-remove r id st.by_receipt))
]
unfile-mapped id c s (some d) st e k v = elim (Option-cases (Dict.get c st.by_chat)) [
  | inl f ↦ ground (arith, get-remove c d st.by_chat)
  | inr (r, f) ↦ ground (arith, rw f at v, get-remove c d st.by_chat, get-remove r id st.by_receipt)
]

unfile-IsCoherent : (id : Text) (st : ReceiptStore) → IsCoherent st → IsCoherent (unfile id st)
unfolding unfile
unfile-IsCoherent id st v = elim (Option-cases (Dict.get id st.by_receipt)) [
  | inl e ↦ rw (e, unfile) v
  | inr (s, e) ↦
      rw (e, unfile)
        (record {
          chats = λ c. unfile-mapped id c s s.receipt.chat_id st e refl (v.chats c);
          filed = λ k. ground (arith, v.filed k, get-remove k id st.by_receipt);
        })
]

file-mapped :
    (s : StoredReceipt) (o : Option Text) (c : Text) (st : ReceiptStore)
    → Dict.get s.receipt.receipt_id st.by_receipt ≡ none
    → s.receipt.chat_id ≡ o
    → mapped c (Dict.get c st.by_chat) st.by_receipt ≡ true
    → mapped c
        (Dict.get c (map_chat o s.receipt.receipt_id st.by_chat))
        (Dict.insert s.receipt.receipt_id s st.by_receipt)
      ≡ true
file-mapped s none c st e k v = elim (Option-cases (Dict.get c st.by_chat)) [
  | inl f ↦ rw f refl
  | inr (r, f) ↦ rw f (ground (arith, rw f at v, get-insert r s.receipt.receipt_id s st.by_receipt))
]
file-mapped s (some d) c st e k v = elim (Option-cases (Dict.get c st.by_chat)) [
  | inl f ↦ ground (
    arith,
    get-insert c d s.receipt.receipt_id st.by_chat,
    get-insert s.receipt.receipt_id s.receipt.receipt_id s st.by_receipt,
  )
  | inr (r, f) ↦ ground (
    arith,
    rw f at v,
    get-insert c d s.receipt.receipt_id st.by_chat,
    get-insert s.receipt.receipt_id s.receipt.receipt_id s st.by_receipt,
    get-insert r s.receipt.receipt_id s st.by_receipt,
  )
]

file-IsCoherent :
    (s : StoredReceipt) (st : ReceiptStore)
    → Dict.get s.receipt.receipt_id st.by_receipt ≡ none
    → IsCoherent st
    → IsCoherent (file st s)
unfolding file
file-IsCoherent s st e v = record {
  chats = λ c. file-mapped s s.receipt.chat_id c st e refl (v.chats c);
  filed = λ k. ground (arith, v.filed k, get-insert k s.receipt.receipt_id s st.by_receipt);
}

rebucket-IsCoherent :
    (st : ReceiptStore) (b : Buckets) → IsCoherent st → IsCoherent (record st { by_expiry = b })
rebucket-IsCoherent st b v = record { chats = v.chats; filed = v.filed }

remove-IsCoherent : (id : Text) (st : ReceiptStore) → IsCoherent st → IsCoherent (remove st id)
unfolding remove
remove-IsCoherent id st v = elim (Option-cases (Dict.get id st.by_receipt)) [
  | inl e ↦ rw (e, remove) v
  | inr (s, e) ↦ rw (e, remove) (rebucket-IsCoherent (unfile id st) _ (unfile-IsCoherent id st v))
]

get-remove-none : (id : Text) (st : ReceiptStore) → Dict.get id (remove st id).by_receipt ≡ none
unfolding remove unfile
get-remove-none id st = elim (Option-cases (Dict.get id st.by_receipt)) [
  | inl e ↦ rw (e, remove) e
  | inr (s, e) ↦ rw (e, remove) (ground (arith, get-remove id id st.by_receipt))
]

insert-IsCoherent :
    (st : ReceiptStore) (r : Receipt) (o : Option ReceiptOwner) (e : ℕ)
    → IsCoherent st
    → IsCoherent (insert st r o e)
unfolding insert
insert-IsCoherent st r o e v =
    file-IsCoherent (record { receipt = r; owner = o; expires_at = e }) (remove st r.receipt_id)
      (get-remove-none r.receipt_id st) (remove-IsCoherent r.receipt_id st v)

evict_ids-IsCoherent :
    (ids : List Text) (st : ReceiptStore) → IsCoherent st → IsCoherent (evict_ids ids st)
unfolding evict_ids
evict_ids-IsCoherent [] st v = v
evict_ids-IsCoherent (id ∷ ids) st v =
    evict_ids-IsCoherent ids (unfile id st) (unfile-IsCoherent id st v)

evict_buckets-IsCoherent :
    (now : ℕ) (b : Buckets) (st : ReceiptStore)
    → IsCoherent st
    → IsCoherent (evict_buckets now st b)
unfolding evict_buckets
evict_buckets-IsCoherent now [] st v = rebucket-IsCoherent st [] v
evict_buckets-IsCoherent now ((d, ids) ∷ b) st v = elim (Bool-cases (ltb now d)) [
  | inl late ↦ rw (late, evict_buckets) (rebucket-IsCoherent st ((d, ids) ∷ b) v)
  | inr due ↦
      rw (due, evict_buckets)
        (evict_buckets-IsCoherent now b (evict_ids ids st) (evict_ids-IsCoherent ids st v))
]

pub put-IsCoherent :
    (st : ReceiptStore) (r : Receipt) (o : Option ReceiptOwner) (now e : ℕ)
    → IsCoherent st
    → IsCoherent (put st r o now e)
unfolding put evict_expired
put-IsCoherent st r o now e v =
    insert-IsCoherent (evict_buckets now st st.by_expiry) r o e
      (evict_buckets-IsCoherent now st.by_expiry st v)

pub read-IsCoherent :
    (st : ReceiptStore) (id : Text) (now : ℕ) → IsCoherent st → IsCoherent (read st id now).0
unfolding read
read-IsCoherent st id now v = elim (Option-cases (Dict.get id st.by_receipt)) [
  | inl e ↦ rw (e, read) v
  | inr (s, e) ↦ elim (Bool-cases (leb s.expires_at now)) [
    | inl due ↦ rw (e, read, due) (remove-IsCoherent id st v)
    | inr late ↦ rw (e, read, late) v
  ]
]
