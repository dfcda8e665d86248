-- ===== src/Systemd/Supervisor/Liveness.antt =====
-- When a query makes the supervisor redial.
use systemd2mqtt.Base.{
  ℕ, ◌+◌, Bool, List, [], ◌∷◌, ◌≤◌, ◌≡◌, true, false, ◌||◌, if◌then◌else◌, ◌==◌, arith,
}
use systemd2mqtt.Systemd.Unit.{is_disconnect_err}
use systemd2mqtt.Systemd.Supervisor.{Supervisor, QueryResult, answered, failed, query_done}

-- What the queries that end one after the other say: an error that means that the connection is
-- gone, or two failures without an answer between them. Queries of other generations do not
-- count.
abbrev pub asks_redial : ℕ → Bool → List (ℕ × QueryResult) → Bool
asks_redial gen failed_before [] = false
asks_redial gen failed_before ((g, answered us) ∷ rs) =
    asks_redial gen (if g == gen then false else failed_before) rs
asks_redial gen failed_before ((g, failed e) ∷ rs) =
    if g == gen
    then is_disconnect_err e || (failed_before || asks_redial gen true rs)
    else asks_redial gen failed_before rs

module _ {M : Type 0} where
  abbrev pub queries : List (ℕ × QueryResult) → Supervisor M → Supervisor M
  queries [] s = s
  queries ((g, r) ∷ rs) s = queries rs (query_done g r s)

  query_done-keeps :
      (g : ℕ) (r : QueryResult) (s : Supervisor M)
      → s.redial ≡ true
      → (query_done g r s).redial ≡ true
  unfolding query_done
  query_done-keeps g (answered us) s h = ground arith
  query_done-keeps g (failed e) s h = ground arith

  queries-keeps :
      (rs : List (ℕ × QueryResult)) (s : Supervisor M)
      → s.redial ≡ true
      → (queries rs s).redial ≡ true
  queries-keeps [] s h = h
  queries-keeps ((g, r) ∷ rs) s h = queries-keeps rs (query_done g r s) (query_done-keeps g r s h)

  -- After any queries have ended one after the other, of any generations, a redial is requested
  -- exactly if it was before, or if, among those of the current generation, one failed with an error
  -- that means that the connection is gone or two failed in a row, the failure before these queries
  -- counted: an answer between two failures makes the second one a first one again.
  pub failed_query_redials :
      (rs : List (ℕ × QueryResult)) (s : Supervisor M)
      → s.failures ≤ 1
      → (queries rs s).redial ≡ (s.redial || asks_redial s.gen (s.failures == 1) rs)
  unfolding query_done
  failed_query_redials [] s h = ground arith
  failed_query_redials ((g, answered us) ∷ rs) s h =
      ground (arith, failed_query_redials rs s, failed_query_redials rs (record s { failures = 0 }))
  failed_query_redials ((g, failed e) ∷ rs) s h = ground (
    arith,
    failed_query_redials rs s,
    failed_query_redials rs (record s { failures = s.failures + 1 }),
    queries-keeps rs (record s { failures = 0; redial = true }),
  )
