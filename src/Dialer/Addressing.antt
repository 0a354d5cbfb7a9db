-- ===== src/Dialer/Addressing.antt =====
-- The address of hostWithPort.
use mqtt_go.Base.{◌≡◌, refl, sym, append-nil, [], ◌∷◌, ◌++◌}
use mqtt_go.Base.Bits.{Bytes}
use mqtt_go.Dialer.{
  Scheme, tcp, mqtt, tls, ssl, mqtts, wss, ws, other_scheme, Url, default_port, with_port,
  host_with_port,
}

-- The default ports as text.
abbrev pub port_text : Scheme → Bytes
port_text mqtt = b':' ∷ b'1' ∷ b'8' ∷ b'8' ∷ b'3' ∷ []
port_text mqtts = b':' ∷ b'8' ∷ b'8' ∷ b'8' ∷ b'3' ∷ []
port_text wss = b':' ∷ b'4' ∷ b'4' ∷ b'3' ∷ []
port_text ws = b':' ∷ b'8' ∷ b'0' ∷ []
port_text s = []

-- The host, with the default port of the scheme where the URL has none.
abbrev pub address : Url → Bytes
address u = elim u.port [ [] ↦ u.host ++ port_text u.scheme | ◌∷◌ c cs ↦ u.host ]

pub host_with_port-address : (u : Url) → host_with_port u ≡ address u
unfolding host_with_port
host_with_port-address u = by_port u.port
  where
    by_scheme : (s : Scheme) (h : Bytes) → with_port (default_port s) h ≡ h ++ port_text s
    by_scheme tcp h = sym (append-nil h)
    by_scheme mqtt h = refl
    by_scheme tls h = sym (append-nil h)
    by_scheme ssl h = sym (append-nil h)
    by_scheme mqtts h = refl
    by_scheme wss h = refl
    by_scheme ws h = refl
    by_scheme (other_scheme s) h = sym (append-nil h)

    by_port :
        (p : Bytes)
        → (elim p [ [] ↦ with_port (default_port u.scheme) u.host | ◌∷◌ c cs ↦ u.host ])
          ≡ (elim p [ [] ↦ u.host ++ port_text u.scheme | ◌∷◌ c cs ↦ u.host ])
    by_port [] = by_scheme u.scheme u.host
    by_port (c ∷ cs) = refl
