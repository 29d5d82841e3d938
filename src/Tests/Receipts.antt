-- ===== src/Tests/Receipts.antt =====
-- A receipt store in which a chat id is used again.
use phala_llm_router.Base.{
  List, [], ◌∷◌, none, some, Text, codes, text_eq, text_discrete, ℕ_discrete, ◌≡◌, refl,
}
use phala_llm_router.Dict
use phala_llm_router.Expiry.{hint, drop_expiry_hint}
use phala_llm_router.Receipts.{
  Receipt, no_receipts, get_by_chat_id, get_by_receipt_id, put, insert, file, remove, unfile,
  drop_chat_mapping, evict_expired, evict_buckets, evict_ids, read,
}
use phala_llm_router.Receipts.History.{Call, puts, by_receipt_id, run, step, get_by_chat_id-own}

program : Unit {0}
unfolding run step put insert file remove unfile drop_chat_mapping evict_expired evict_buckets
    evict_ids read get_by_chat_id get_by_receipt_id hint drop_expiry_hint Dict.get Dict.insert
    Dict.remove Dict.add Dict.del Dict.contains text_eq text_discrete ℕ_discrete
program = tt

abbrev receipt : Text → Receipt
receipt id = record {
  api_version = codes "aci/1";
  receipt_id = id;
  chat_id = some (codes "c");
  model = none;
  workload_id = codes "w";
  workload_keyset_digest = codes "k";
  endpoint = codes "/v1/chat/completions";
  method = codes "POST";
  served_at = 1;
  event_log = [];
  signature = record { algo = codes "p"; key_id = codes "1"; value_hex = codes "02" };
}

-- The receipt "b" takes the chat over from "a", which is still there by its own id until 20.
abbrev calls : List Call
calls =
    puts (receipt (codes "a")) none 1 20
    ∷ puts (receipt (codes "b")) none 2 30
    ∷ by_receipt_id (codes "a") 20
    ∷ []

fetched_b : (get_by_chat_id (run no_receipts calls) (codes "c") 25).1 ≡ some (receipt (codes "b"))
unfolding program
fetched_b = refl

get_by_chat_id-own_example :
    ((receipt (codes "b")).chat_id ≡ some (codes "c"))
    × ((get_by_receipt_id (run no_receipts calls) (receipt (codes "b")).receipt_id 25).1
        ≡ some (receipt (codes "b")))
get_by_chat_id-own_example = get_by_chat_id-own calls (codes "c") 25 (receipt (codes "b")) fetched_b
