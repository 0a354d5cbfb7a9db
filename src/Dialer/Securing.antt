-- ===== src/Dialer/Securing.antt =====
-- Which connections of DialContext are secured.
use mqtt_go.Base.{
  ℕ, ◌≡◌, ◌↔◌, refl, sym, ap, ◌∙◌, Bool, true, false, List, [], ◌∷◌, ◌++◌, Option, none, some,
  if◌then◌else◌, String,
}
use mqtt_go.Base.Bits.{Bytes}
use mathlib.Core.Path.{subst}
use mqtt_go.Base.Outcome.{ok, err, panic, ◌>>=◌, OnOk, >>=-OnOk, OnOk-map}
use mqtt_go.Errors.{Go}
use mqtt_go.Dialer.{
  Scheme, tcp, mqtt, tls, ssl, mqtts, wss, ws, other_scheme, Url, TlsConfig, Transport, connection,
  tls_client, websocket, Net, DialOptions, DialOption, is_secure, Dialled, wrapped_err, origin,
  dial_websocket, lay_transport, check_scheme, dial, dial_options, first_options, dial_context,
  host_with_port, mqtt_protocol, with_max_payload_len,
}
use mqtt_go.Dialer.Addressing.{address, host_with_port-address}

-- The TLS configuration that the bytes go through, none where they are sent in the clear.
abbrev pub secured_by : Transport → Option (Option TlsConfig)
secured_by (connection c) = none
secured_by (tls_client config t) = some config
secured_by (websocket config protocols t) = secured_by t

abbrev pub is_websocket : Transport → Bool
is_websocket (connection c) = false
is_websocket (tls_client config t) = is_websocket t
is_websocket (websocket config protocols t) = true

abbrev pub asks_websocket : Scheme → Bool
asks_websocket wss = true
asks_websocket ws = true
asks_websocket s = false

-- An option that leaves the TLS configuration alone, as every one of the package but WithTLSConfig and
-- WithTLSCertFiles.
abbrev pub KeepsTls : DialOption → Type 0
KeepsTls opt = (o o' : DialOptions) → opt o ≡ ok o' → o'.tls_config ≡ o.tls_config

pub with_max_payload_len-KeepsTls : (l : ℕ) → KeepsTls (with_max_payload_len l)
unfolding with_max_payload_len
with_max_payload_len-KeepsTls l o o' e =
    subst (OnOk (λ (o1 : DialOptions). o1.tls_config ≡ o.tls_config)) e refl

abbrev pub AllKeepTls : List DialOption → Type 0
AllKeepTls [] = Unit {0}
AllKeepTls (opt ∷ opts) = KeepsTls opt × AllKeepTls opts

-- A transport as the scheme asks for it, over the connection.
abbrev Laid : DialOptions → Scheme → Transport → Type 0
Laid o s t =
    (secured_by t ≡ (if is_secure s then some o.tls_config else none))
    × (is_websocket t ≡ asks_websocket s)

dial_websocket-Laid :
    (net : Net) (o : DialOptions) (u : Url) (base : Transport)
    → OnOk
        (λ t. (secured_by t ≡ secured_by base) × (is_websocket t ≡ true))
        (dial_websocket net o u base)
unfolding dial_websocket
dial_websocket-Laid net o u base =
    >>=-OnOk _ (wrapped_err "configuring websocket" (net.new_config u.text (origin u))) _ (λ ps e.
      >>=-OnOk _ (wrapped_err "dialing websocket" (net.new_client (ps ++ mqtt_protocol ∷ []) base))
        _ (λ x e'. (refl, refl)))

lay_transport-Laid :
    (net : Net) (o : DialOptions) (u : Url) (s : Scheme) (c : ℕ)
    → check_scheme s ≡ ok tt
    → OnOk (Laid o s) (lay_transport net o u s (connection c))
unfolding lay_transport
lay_transport-Laid net o u tcp c h = (refl, refl)
lay_transport-Laid net o u mqtt c h = (refl, refl)
lay_transport-Laid net o u tls c h = (refl, refl)
lay_transport-Laid net o u ssl c h = (refl, refl)
lay_transport-Laid net o u mqtts c h = (refl, refl)
lay_transport-Laid net o u wss c h =
    dial_websocket-Laid net o u (tls_client o.tls_config (connection c))
lay_transport-Laid net o u ws c h = dial_websocket-Laid net o u (connection c)
lay_transport-Laid net o u (other_scheme s) c h = absurd (cc)

dial-Laid :
    (net : Net) (o : DialOptions) (u : Url)
    → OnOk (λ (d : Dialled). Laid o u.scheme d.transport) (dial net o u)
unfolding dial
dial-Laid net o u = >>=-OnOk _ (check_scheme u.scheme) _ (λ x good.
    >>=-OnOk _ (wrapped_err "dialing tcp" (net.dial_tcp o.dialer (host_with_port u))) _
      (λ c e. lift_Laid o u _ (lay_transport-Laid net o u u.scheme c good)))
  where
    lift_Laid :
        (o : DialOptions) (u : Url) (x : Go Transport)
        → OnOk (Laid o u.scheme) x
        → OnOk
            (λ (d : Dialled). Laid o u.scheme d.transport)
            (x >>= λ t. ok (record {
              conn_state = o.conn_state;
              max_payload_len = o.max_payload_len;
              transport = t;
            }))
    lift_Laid o u panic h = tt
    lift_Laid o u (err e) h = tt
    lift_Laid o u (ok t) h = h

dial_options-KeepsTls :
    (opts : List DialOption) (o : DialOptions)
    → AllKeepTls opts
    → OnOk (λ o'. o'.tls_config ≡ o.tls_config) (dial_options opts o)
unfolding dial_options
dial_options-KeepsTls [] o h = refl
dial_options-KeepsTls (opt ∷ opts) o (h, hs) = >>=-OnOk _ (opt o) _ (λ o1 e.
    subst (λ c. OnOk (λ o'. o'.tls_config ≡ c) (dial_options opts o1)) (h o o1 e)
      (dial_options-KeepsTls opts o1 hs))

-- The schemes of secure connections.
abbrev pub asks_tls : Scheme → Bool
asks_tls tls = true
asks_tls ssl = true
asks_tls mqtts = true
asks_tls wss = true
asks_tls s = false

is_secure-asks_tls : (s : Scheme) → is_secure s ≡ asks_tls s
is_secure-asks_tls tcp = refl
is_secure-asks_tls mqtt = refl
is_secure-asks_tls tls = refl
is_secure-asks_tls ssl = refl
is_secure-asks_tls mqtts = refl
is_secure-asks_tls wss = refl
is_secure-asks_tls ws = refl
is_secure-asks_tls (other_scheme s) = refl

-- What DialContext makes of a URL, with options that leave the TLS configuration alone.
abbrev pub AsAsked : Net → Bytes → Dialled → Type 0
AsAsked net url d =
    (u : Url) × (net.parse url ≡ ok u)
    × (secured_by d.transport ≡ (
        if asks_tls u.scheme
        then some (some (record { server_name = u.hostname; root_cas = none; certificates = [] }))
        else none))
    × (is_websocket d.transport ≡ asks_websocket u.scheme)

abbrev first_tls : Url → TlsConfig
first_tls u = record { server_name = u.hostname; root_cas = none; certificates = [] }

default_config :
    (secure : Bool) (c : Option TlsConfig) (x : TlsConfig)
    → c ≡ (if secure then some x else none)
    → (if secure then some c else none) ≡ (if secure then some (some x) else none)
default_config true c x e = ap some e
default_config false c x e = refl

dial_context-Asked :
    (net : Net) (url : Bytes) (opts : List DialOption)
    → AllKeepTls opts
    → OnOk (AsAsked net url) (dial_context net url opts)
unfolding dial_context
dial_context-Asked net url opts h = >>=-OnOk _ (net.parse url) _ (λ u parsed.
    >>=-OnOk _ (dial_options opts (first_options u)) _ (λ o e.
      let same =
        subst (OnOk (λ (o' : DialOptions). o'.tls_config ≡ (first_options u).tls_config)) e
          (dial_options-KeepsTls opts (first_options u) h) in
      OnOk-map _ _ (dial net o u) (dial-Laid net o u) (λ d l. (
        u,
        parsed,
        l.0
            ∙ default_config (is_secure u.scheme) o.tls_config _ same
            ∙ ap (λ b. if b then some (some (first_tls u)) else none) (is_secure-asks_tls u.scheme),
        l.1,
      ))))

-- The handshake of a WebSocket over a transport succeeds.
abbrev pub Handshake : Net → Url → Transport → Type 0
Handshake net u base =
    (ps : List Bytes) × (wrapped_err "configuring websocket" (net.new_config u.text (origin u))
      ≡ ok ps)
    × (wrapped_err "dialing websocket" (net.new_client (ps ++ mqtt_protocol ∷ []) base) ≡ ok tt)

-- What the scheme asks for succeeds over the connection.
abbrev pub Layable : Net → DialOptions → Url → Scheme → Transport → Type 0
Layable net o u wss base = Handshake net u (tls_client o.tls_config base)
Layable net o u ws base = Handshake net u base
Layable net o u (other_scheme s) base = ⊥
Layable net o u s base = Unit {0}

-- The calls of the other packages succeed, for a scheme that is supported.
abbrev pub Reachable : Net → Bytes → List DialOption → Type 0
Reachable net url opts =
    (u : Url) × (o : DialOptions) × (c : ℕ) × (net.parse url ≡ ok u)
    × (dial_options opts (first_options u) ≡ ok o)
    × (net.dial_tcp o.dialer (address u) ≡ ok c)
    × Layable net o u u.scheme (connection c)

dial_websocket-ok :
    (net : Net) (o : DialOptions) (u : Url) (base : Transport)
    → Handshake net u base
    → (t : Transport) × (dial_websocket net o u base ≡ ok t)
unfolding dial_websocket
dial_websocket-ok net o u base (ps, e, e') =
    (websocket o.tls_config (ps ++ mqtt_protocol ∷ []) base, rw e (rw e' refl))

lay_transport-ok :
    (net : Net) (o : DialOptions) (u : Url) (s : Scheme) (base : Transport)
    → Layable net o u s base
    → (check_scheme s ≡ ok tt) × (t : Transport) × (lay_transport net o u s base ≡ ok t)
unfolding lay_transport
lay_transport-ok net o u tcp base h = (refl, _, refl)
lay_transport-ok net o u mqtt base h = (refl, _, refl)
lay_transport-ok net o u tls base h = (refl, _, refl)
lay_transport-ok net o u ssl base h = (refl, _, refl)
lay_transport-ok net o u mqtts base h = (refl, _, refl)
lay_transport-ok net o u wss base h = let (t, e) = dial_websocket-ok net o u _ h in (refl, t, e)
lay_transport-ok net o u ws base h = let (t, e) = dial_websocket-ok net o u _ h in (refl, t, e)
lay_transport-ok net o u (other_scheme s) base h = absurd h

Reachable-ok :
    (net : Net) (url : Bytes) (opts : List DialOption)
    → Reachable net url opts
    → (d : Dialled) × (dial_context net url opts ≡ ok d)
unfolding dial_context dial
Reachable-ok net url opts (u, o, c, parsed, applied, reached, h) =
    let dialled : net.dial_tcp o.dialer (host_with_port u) ≡ ok c =
      ap (net.dial_tcp o.dialer) (host_with_port-address u) ∙ reached in
    let (good, t, laid) = lay_transport-ok net o u u.scheme (connection c) h in
    let d : Dialled = record {
      conn_state = o.conn_state;
      max_payload_len = o.max_payload_len;
      transport = t;
    } in
    (d, rw parsed (rw applied (rw good (rw dialled (rw laid refl)))))

dial_websocket-Handshake :
    (net : Net) (o : DialOptions) (u : Url) (base : Transport)
    → OnOk (λ t. Handshake net u base) (dial_websocket net o u base)
unfolding dial_websocket
dial_websocket-Handshake net o u base =
    >>=-OnOk _ (wrapped_err "configuring websocket" (net.new_config u.text (origin u))) _ (λ ps e.
      >>=-OnOk _ (wrapped_err "dialing websocket" (net.new_client (ps ++ mqtt_protocol ∷ []) base))
        _ (λ x e'. (ps, e, e')))

lay_transport-Layable :
    (net : Net) (o : DialOptions) (u : Url) (s : Scheme) (base : Transport)
    → check_scheme s ≡ ok tt
    → OnOk (λ t. Layable net o u s base) (lay_transport net o u s base)
unfolding lay_transport
lay_transport-Layable net o u tcp base h = tt
lay_transport-Layable net o u mqtt base h = tt
lay_transport-Layable net o u tls base h = tt
lay_transport-Layable net o u ssl base h = tt
lay_transport-Layable net o u mqtts base h = tt
lay_transport-Layable net o u wss base h = dial_websocket-Handshake net o u _
lay_transport-Layable net o u ws base h = dial_websocket-Handshake net o u _
lay_transport-Layable net o u (other_scheme s) base h = absurd (cc)

unwrapped : {A : Type 0} (f : String) (x : Go A) (a : A) → wrapped_err f x ≡ ok a → x ≡ ok a
unwrapped f (ok b) a e = e
unwrapped f (err b) a e = absurd (cc)
unwrapped f panic a e = absurd (cc)

dial_context-Reachable :
    (net : Net) (url : Bytes) (opts : List DialOption)
    → OnOk (λ d. Reachable net url opts) (dial_context net url opts)
unfolding dial_context dial
dial_context-Reachable net url opts = >>=-OnOk _ (net.parse url) _ (λ u parsed.
    >>=-OnOk _ (dial_options opts (first_options u)) _ (λ o applied.
      >>=-OnOk _ (check_scheme u.scheme) _ (λ x good.
        >>=-OnOk _ (wrapped_err "dialing tcp" (net.dial_tcp o.dialer (host_with_port u))) _ (λ c e.
          >>=-OnOk _ (lay_transport net o u u.scheme (connection c)) _ (λ t laid. (
            u,
            o,
            c,
            parsed,
            applied,
            ap (net.dial_tcp o.dialer) (sym (host_with_port-address u)) ∙ unwrapped _ _ _ e,
            subst (OnOk (λ t. Layable net o u u.scheme (connection c))) laid
                (lay_transport-Layable net o u u.scheme (connection c) good),
          ))))))

-- DialContext, where no option sets a TLS configuration, returns a client exactly if the URL can be
-- parsed, no option fails, the scheme is supported, the connection can be made to the host of the URL,
-- with the port 1883 for mqtt, 8883 for mqtts, 443 for wss and 80 for ws behind it if it has none, and
-- for ws and wss the handshake succeeds. The bytes of every client that it returns go through TLS
-- exactly for the schemes tls, ssl, mqtts and wss, with the host name of the URL as the name to verify;
-- and they go through a WebSocket exactly for ws and wss.
pub dial_context_iff :
    (net : Net) (url : Bytes) (opts : List DialOption)
    → AllKeepTls opts
    → OnOk (AsAsked net url) (dial_context net url opts)
      × (((d : Dialled) × (dial_context net url opts ≡ ok d)) ↔ Reachable net url opts)
dial_context_iff net url opts keep = (
  dial_context-Asked net url opts keep,
  (
    λ (d, e). subst (OnOk (λ d. Reachable net url opts)) e (dial_context-Reachable net url opts),
    Reachable-ok net url opts,
  ),
)
