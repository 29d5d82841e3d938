-- ===== src/Receipts/Tree.antt =====
-- The canonical JSON tree of a receipt: `to_canonical_value` of aci/types.rs.
use phala_llm_router.Base.{Bool, true, false, map, codes}
use phala_llm_router.Json.{
  Value, string, array, object, end, field, extend, fields_of, items, text_or_null, natural,
}
use phala_llm_router.Receipts.{Receipt, ReceiptEvent, ReceiptSignature}

unfoldable pub event_value : ReceiptEvent → Value
unfolding extend
event_value e = object (
    extend (fields_of e.fields)
      (field (codes "seq") (natural e.seq) (field (codes "type") (string e.event_type) end)))

-- With the signature's value, or without.
unfoldable pub signature_value : Bool → ReceiptSignature → Value
signature_value true s = object (
    field (codes "algo") (string s.algo)
      (field (codes "key_id") (string s.key_id) (field (codes "value") (string s.value_hex) end)))
signature_value false s =
    object (field (codes "algo") (string s.algo) (field (codes "key_id") (string s.key_id) end))

unfoldable pub receipt_value : Receipt → Bool → Value
unfolding event_value signature_value
receipt_value r include_signature_value = object (
    field (codes "api_version") (string r.api_version) (
      field (codes "receipt_id") (string r.receipt_id) (
        field (codes "chat_id") (text_or_null r.chat_id) (
          field (codes "model") (text_or_null r.model) (
            field (codes "workload_id") (string r.workload_id) (
              field (codes "workload_keyset_digest") (string r.workload_keyset_digest) (
                field (codes "endpoint") (string r.endpoint) (
                  field (codes "method") (string r.method) (
                    field (codes "served_at") (natural r.served_at) (
                      field (codes "event_log") (array (items (map event_value r.event_log))) (
                        field (codes "signature")
                          (signature_value include_signature_value r.signature) end)))))))))))
