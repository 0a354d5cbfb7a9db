-- ===== src/Client/Reached.antt =====
-- The acknowledgement of a packet reaches the request that waits for it.
use mqtt_go.Base.{
  ℕ, ◌<◌, ◌≡◌, refl, sym, ap, ◌∙◌, true, [], ◌++◌, none, some, lookup, insert, lookup-insert, ◌==◌,
  ==_refl,
}
use mqtt_go.Message.{Message, qos1}
use mqtt_go.Packet.Strings.{uint16_field}
use mqtt_go.Ack.Answers.{pub_ack-field}
use mqtt_go.Signaller.{Signal, pub_ack_signal, Signaller, Channels, send, take_pub_ack}
use mqtt_go.Serve.{Server, on_pub_ack}
use mqtt_go.Client.{Client, register}

send-empty :
    (ch : ℕ) (v : Signal) (chans : Channels) → chans ch ≡ none → send (some ch) v chans ch ≡ some v
unfolding send
send-empty ch v chans e = rw (e, send) (rw (==_refl ch) refl)

-- A request that publishes at QoS 1 makes a channel. If the reading loop then works with the
-- signaller that the request left, and the new channel is empty, PUBACK with the identifier of the
-- message puts the acknowledgement into this channel.
pub register-on_pub_ack :
    (m : Message) (sig sig' : Signaller) (c : Client) (s : Server)
    → m.qos ≡ 1
    → m.id < 65536
    → (register m sig c).sig ≡ some sig'
    → s.sig ≡ sig'
    → s.channels c.channels_made ≡ none
    → (on_pub_ack 0 (uint16_field m.id ++ []) s).0.channels c.channels_made
      ≡ some (pub_ack_signal (record { id = m.id }))
unfolding on_pub_ack take_pub_ack
register-on_pub_ack m sig sig' c s one small e same empty =
    rw (pub_ack-field m.id [] small) (rw found (send-empty c.channels_made _ s.channels empty))
  where
    made : record sig { ch_pub_ack = insert m.id c.channels_made sig.ch_pub_ack } ≡ sig'
    made =
        let test : (m.qos == qos1) ≡ true = ap (λ (q : ℕ). q == qos1) one in
        let left : (register m sig c).sig
            ≡ some (record sig { ch_pub_ack = insert m.id c.channels_made sig.ch_pub_ack }) =
          simp test in
        let both : some (record sig { ch_pub_ack = insert m.id c.channels_made sig.ch_pub_ack })
            ≡ some sig' =
          sym left ∙ e in
        cc

    found : lookup m.id s.sig.ch_pub_ack ≡ some c.channels_made
    found =
        ap (λ x. lookup m.id x.ch_pub_ack) (same ∙ sym made)
        ∙ lookup-insert m.id c.channels_made sig.ch_pub_ack
