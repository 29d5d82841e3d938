-- ===== src/Router/History.antt =====
-- `record_history` keeps the most recent prompts of a route.
use mathlib.Core.List.{reverse, reverse-append}
use phala_llm_router.Base.{
  ℕ, ◌<◌, false, List, [], ◌∷◌, ◌++◌, Text, text_discrete, ite, or_default, ◌≡◌, ap, ◌∙◌, arith,
}
use phala_llm_router.Base.Lists.{take, drop_first-take}
use phala_llm_router.Dict
use phala_llm_router.Dict.{get-insert}
use phala_llm_router.Router.Types.{RouterState}
use phala_llm_router.Router.Text.{is_empty, limit_chars, max_routing_history_chars}
use phala_llm_router.Router.Selection.{record_history, push_sample}
use phala_llm_router.Router.Prefix.Request.{limit_chars-take}

-- The prompts recorded for a model and a route, the oldest first.
unfoldable pub samples : RouterState → Text → Text → List Text
samples state model r = or_default (Dict.get r (or_default (Dict.get model state.history) [])) []

-- The prompts newest first, after one more was recorded.
unfoldable pub recent : ℕ → Text → List Text → List Text
unfolding take
recent n text old = take n (take max_routing_history_chars text ∷ reverse old)

reverse-push_sample :
    (n : ℕ) (text : Text) (old : List Text)
    → reverse (push_sample n (limit_chars text max_routing_history_chars) old) ≡ recent n text old
unfolding push_sample recent
reverse-push_sample n text old =
    drop_first-take n (old ++ limit_chars text max_routing_history_chars ∷ [])
    ∙ ap (take n) (
        reverse-append old (limit_chars text max_routing_history_chars ∷ [])
        ∙ ap (λ t. t ∷ reverse old) (limit_chars-take text max_routing_history_chars))

-- After a prompt that is not empty was recorded for a route of a model, with a limit above 0, the
-- route's prompts, newest first, are the first 16384 characters of it and the prompts from before,
-- up to the limit; the prompts of every other route and model are what they were.
pub samples-record_history :
    (state : RouterState) (model r text : Text) (n : ℕ) (model' r' : Text)
    → is_empty text ≡ false
    → 0 < n
    → reverse (samples (record_history state model r text n) model' r')
      ≡ ite
          (text_discrete model model')
          (ite
            (text_discrete r r')
            (recent n text (samples state model r))
            (reverse (samples state model' r')))
          (reverse (samples state model' r'))
unfolding samples record_history
samples-record_history state model r text n model' r' h pos = ground (
  arith,
  get-insert model' model
      (Dict.insert r
        (push_sample n (limit_chars text max_routing_history_chars)
          (or_default (Dict.get r (or_default (Dict.get model state.history) [])) []))
        (or_default (Dict.get model state.history) []))
      state.history,
  get-insert r' r
      (push_sample n (limit_chars text max_routing_history_chars)
        (or_default (Dict.get r (or_default (Dict.get model state.history) [])) []))
      (or_default (Dict.get model state.history) []),
  reverse-push_sample n text
      (or_default (Dict.get r (or_default (Dict.get model state.history) [])) []),
)
