-- ===== src/Examples/Requests.antt =====
-- A request with a body in two messages, and a token, and their properties.
use agent_projects.Prelude.{
  ◌≡◌, ◌↔◌, ◌≤◌, refl, true, false, some, List, [], ◌∷◌, ◌++◌, map, arith, decimal,
}
use agent_projects.Requests.{
  Bytes, encode, header_values, bytes_eq, lower, Message, request, disconnect, arrived, late,
  forwarded, limit_body, go_on, declared_length, receive_body, lstrip_zeros, int_after, bytes_gt,
  authorized,
}
use agent_projects.Requests.Receiving.{is_whole, body_size, Declares}
use agent_projects.Requests.Bodies.{limit_body_lem, limit_body_passes}
use agent_projects.Requests.Tokens.{Presents, authorized_lem}

abbrev body : List Message
body = request (some (1 ∷ 2 ∷ [])) true ∷ request (some (3 ∷ [])) false ∷ []

abbrev headers : List (Bytes × Bytes)
headers = (encode "Content-Length", encode "03") ∷ []

two_messages : limit_body 4 headers (map arrived body ++ late ∷ []) ≡ forwarded body (late ∷ [])
unfolding limit_body go_on declared_length receive_body header_values bytes_eq lower encode
    lstrip_zeros int_after bytes_gt decimal
two_messages = refl

limit_body_lem_example :
    (map arrived body ++ late ∷ [] ≡ map arrived body ++ late ∷ [])
    × (is_whole body ≡ true)
    × (body_size body ≤ 4)
    × Declares (header_values (encode "content-length") headers) (body_size body)
limit_body_lem_example =
    limit_body_lem 4 headers (map arrived body ++ late ∷ []) body (late ∷ []) two_messages

undeclared : header_values (encode "content-length") [] ≡ []
unfolding header_values
undeclared = refl

limit_body_passes_example :
    limit_body 3 [] (map arrived body ++ arrived disconnect ∷ [])
    ≡ forwarded body (arrived disconnect ∷ [])
limit_body_passes_example =
    limit_body_passes 3 [] body (arrived disconnect ∷ []) undeclared refl (omega arith)

authorized_lem_example :
    (authorized (encode "secret") (encode "Bearer secret") ≡ true)
    ↔ Presents (encode "secret") (encode "Bearer secret")
authorized_lem_example = authorized_lem (encode "secret") (encode "Bearer secret")
