-- ===== src/Receipts/History.antt =====
-- What a read by chat id finds, after any history of calls.
use phala_llm_router.Base.{
  ℕ, leb, true, List, [], ◌∷◌, Option, none, some, Text, ◌≡◌, refl, sym, ap, ◌∙◌, subst, arith,
  Bool-cases, Option-cases, inl, inr,
}
use phala_llm_router.Dict
use phala_llm_router.Dict.{Dict, get-insert, get-remove}
use phala_llm_router.Receipts.{
  Receipt, ReceiptOwner, StoredReceipt, ReceiptStore, no_receipts, receipt_of, put, read,
  get_by_receipt_id, get_by_chat_id, owner_of,
}
use phala_llm_router.Receipts.Coherent.{
  IsCoherent, chat_is, filed_as, mapped, no_receipts-IsCoherent, put-IsCoherent, read-IsCoherent,
}

pub data Call : Type 0 where
  puts : Receipt → Option ReceiptOwner → ℕ → ℕ → Call
  by_receipt_id by_chat_id owns : Text → ℕ → Call

unfoldable pub step : ReceiptStore → Call → ReceiptStore
step st (puts r o now e) = put st r o now e
step st (by_receipt_id id now) = (get_by_receipt_id st id now).0
step st (by_chat_id c now) = (get_by_chat_id st c now).0
step st (owns id now) = (owner_of st id now).0

unfoldable pub run : ReceiptStore → List Call → ReceiptStore
unfolding step
run st [] = st
run st (c ∷ cs) = run (step st c) cs

step-IsCoherent : (st : ReceiptStore) (c : Call) → IsCoherent st → IsCoherent (step st c)
unfolding step get_by_receipt_id get_by_chat_id owner_of
step-IsCoherent st (puts r o now e) v = put-IsCoherent st r o now e v
step-IsCoherent st (by_receipt_id id now) v = read-IsCoherent st id now v
step-IsCoherent st (owns id now) v = read-IsCoherent st id now v
step-IsCoherent st (by_chat_id c now) v = elim (Option-cases (Dict.get c st.by_chat)) [
  | inl e ↦ rw (e, step) v
  | inr (id, e) ↦ rw (e, step) (read-IsCoherent st id now v)
]

run-IsCoherent : (cs : List Call) (st : ReceiptStore) → IsCoherent st → IsCoherent (run st cs)
unfolding run
run-IsCoherent [] st v = v
run-IsCoherent (c ∷ cs) st v = run-IsCoherent cs (step st c) (step-IsCoherent st c v)

chat_is-some : (c : Text) (o : Option Text) → chat_is c o ≡ true → o ≡ some c
chat_is-some c none h = absurd (cc h)
chat_is-some c (some d) h = ground arith

-- A read that serves an entry found it, and its deadline is not reached.
read_served :
    (st : ReceiptStore) (id : Text) (now : ℕ) (r : Receipt)
    → receipt_of (read st id now).1 ≡ some r
    → (s : StoredReceipt) × (Dict.get id st.by_receipt ≡ some s)
      × (s.receipt ≡ r)
      × ((read st id now).1 ≡ some s)
unfolding read
read_served st id now r h = elim (Option-cases (Dict.get id st.by_receipt)) [
  | inl e ↦ absurd (cc (rw (e, read) at h))
  | inr (s, e) ↦ elim (Bool-cases (leb s.expires_at now)) [
    | inl due ↦ absurd (cc (rw (e, read, due) at h))
    | inr late ↦ (s, e, cc (rw (e, read, late) at h), rw (e, read, late) refl)
  ]
]

fetched :
    (st : ReceiptStore) (c : Text) (now : ℕ) (r : Receipt)
    → IsCoherent st
    → (get_by_chat_id st c now).1 ≡ some r
    → (r.chat_id ≡ some c) × ((get_by_receipt_id st r.receipt_id now).1 ≡ some r)
unfolding get_by_chat_id get_by_receipt_id
fetched st c now r v h = elim (Option-cases (Dict.get c st.by_chat)) [
  | inl e ↦ absurd (cc (rw (e, get_by_chat_id) at h))
  | inr (id, e) ↦
      let (s, f, same, served) = read_served st id now r (rw (e, get_by_chat_id) at h) in
      let m : mapped c (Dict.get c st.by_chat) st.by_receipt ≡ true = v.chats c in
      let k : filed_as id (Dict.get id st.by_receipt) ≡ true = v.filed id in
      let own : s.receipt.receipt_id ≡ id = ground (arith, rw f at k) in
      (
        subst (λ x. x.chat_id ≡ some c) same (chat_is-some c s.receipt.chat_id (rw (e, f) at m)),
        ap (λ x. receipt_of (read st x now).1) (sym (ap (λ x. x.receipt_id) same) ∙ own)
            ∙ ap receipt_of served
            ∙ ap some same,
      )
]

-- After any history of calls on an empty store, a receipt that is fetched by a chat id is of that
-- chat, and its own id fetches it too, at the same time: no read by chat id is answered with another
-- chat's receipt, and none finds what the store no longer serves.
pub get_by_chat_id-own :
    (cs : List Call) (c : Text) (now : ℕ) (r : Receipt)
    → (get_by_chat_id (run no_receipts cs) c now).1 ≡ some r
    → (r.chat_id ≡ some c) × ((get_by_receipt_id (run no_receipts cs) r.receipt_id now).1 ≡ some r)
get_by_chat_id-own cs c now r =
    fetched (run no_receipts cs) c now r (run-IsCoherent cs no_receipts no_receipts-IsCoherent)
