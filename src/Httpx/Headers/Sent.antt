-- ===== src/Httpx/Headers/Sent.antt =====
-- Which headers a provider gets (internal/httpx/httpx.go, internal/ws/ws.go).
use haprovider.Prelude.{
  ◌≡◌, refl, ◌∙◌, List, [], ◌∷◌, Option, none, some, if◌then◌else◌, is_empty, Text, text, text_eq,
  Dict, lookup, insert, lookup-insert, not, ◌&&◌,
}
use haprovider.Httpx.ClientIp.{set_forwarded_for}
use haprovider.Httpx.Forward.{set_all, forward_headers}
use haprovider.Httpx.Headers.{send_headers, dial_headers}

module _ (canonical : Text → Text) where
  -- The value that a provider's own headers give to a name: the last one of it, else `before`
  pub own_value : Text → Option Text → List (Text × Text) → Option Text
  own_value name before [] = before
  own_value name before ((k, v) ∷ own) =
      own_value name (if text_eq (canonical k) name then some v else before) own

  lookup-set_all :
      (name : Text) (own : List (Text × Text)) (headers : Dict Text)
      → lookup name (set_all canonical own headers) ≡ own_value name (lookup name headers) own
  unfolding set_all own_value
  lookup-set_all name [] headers = refl
  lookup-set_all name ((k, v) ∷ own) headers =
      lookup-set_all name own (insert (canonical k) v headers)
      ∙ rw (lookup-insert (canonical k) name v headers) refl

  -- The client's address comes before the content type, this before the version, and this before the
  -- provider's own headers.
  pub sent_value : Option Text → List (Text × Text) → Text → Text → Text → Option Text
  sent_value content_type own user_agent carried name =
      if not (is_empty carried) && text_eq (text "X-Forwarded-For") name
      then some carried
      else elim content_type [
        | some t ↦
            if text_eq (text "Content-Type") name
            then some t
            else (if text_eq (text "User-Agent") name
                then some user_agent
                else own_value name none own)
        | none ↦
            if text_eq (text "User-Agent") name then some user_agent else own_value name none own
      ]

  lookup-set_forwarded_for :
      (name carried : Text) (headers : Dict Text)
      → lookup name (set_forwarded_for carried headers) ≡ (
          if not (is_empty carried) && text_eq (text "X-Forwarded-For") name
          then some carried
          else lookup name headers)
  unfolding set_forwarded_for
  lookup-set_forwarded_for name [] headers = refl
  lookup-set_forwarded_for name (c ∷ carried) headers =
      lookup-insert (text "X-Forwarded-For") name (c ∷ carried) headers

  lookup-versioned :
      (own : List (Text × Text)) (user_agent name : Text)
      → lookup name (insert (text "User-Agent") user_agent (set_all canonical own []))
        ≡ (if text_eq (text "User-Agent") name then some user_agent else own_value name none own)
  unfolding lookup
  lookup-versioned own user_agent name =
      lookup-insert (text "User-Agent") name user_agent (set_all canonical own [])
      ∙ rw (lookup-set_all name own []) refl

  lookup-with_content :
      (own : List (Text × Text)) (user_agent content_type carried name : Text)
      → lookup name (
          set_forwarded_for carried (
            insert
              (text "Content-Type")
              content_type
              (insert (text "User-Agent") user_agent (set_all canonical own []))))
        ≡ sent_value (some content_type) own user_agent carried name
  unfolding sent_value
  lookup-with_content own user_agent content_type carried name =
      lookup-set_forwarded_for name carried _
      ∙ rw
          (
            lookup-insert (text "Content-Type") name content_type
                (insert (text "User-Agent") user_agent (set_all canonical own [])),
            lookup-versioned own user_agent name,
          )
          refl

  lookup-without_content :
      (own : List (Text × Text)) (user_agent carried name : Text)
      → lookup name (
          set_forwarded_for carried
            (insert (text "User-Agent") user_agent (set_all canonical own [])))
        ≡ sent_value none own user_agent carried name
  unfolding sent_value
  lookup-without_content own user_agent carried name =
      lookup-set_forwarded_for name carried _ ∙ rw (lookup-versioned own user_agent name) refl

  -- Under each name a provider gets the client's address, where the context carries one, the content
  -- type of the request, the version, or else the last of its own headers of that name: neither its
  -- own headers nor the client can replace the other three. This holds of JSON-RPC calls, of
  -- forwarded requests and of WebSocket dials alike, where the last have no content type.
  pub lookup-headers :
      (own : List (Text × Text)) (user_agent content_type carried name : Text)
      → (lookup name (send_headers canonical own user_agent carried)
          ≡ sent_value (some (text "application/json; charset=utf-8")) own user_agent carried name)
        × (lookup name (forward_headers canonical own user_agent content_type carried)
            ≡ sent_value
                (some (
                  if is_empty content_type
                  then text "application/json; charset=utf-8"
                  else content_type))
                own
                user_agent
                carried
                name)
        × (lookup name (dial_headers canonical own user_agent carried)
            ≡ sent_value none own user_agent carried name)
  unfolding send_headers forward_headers dial_headers sent_value
  lookup-headers own user_agent content_type carried name = (
    lookup-with_content own user_agent (text "application/json; charset=utf-8") carried name,
    lookup-with_content own user_agent _ carried name,
    lookup-without_content own user_agent carried name,
  )
