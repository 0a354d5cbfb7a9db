-- ===== src/Signaller.antt =====
-- client.go: the signaller, by which the reading loop hands an acknowledgement to the request that
-- waits for it. A channel is a number; all channels have room for one value and are sent to by a
-- `select` with a default, so that a send to a full or to a nil channel does nothing.
use mqtt_go.Base.{ℕ, Option, none, some, Map, lookup, delete, ◌==◌, if◌then◌else◌}
use mqtt_go.Ack.{PktConnAck, PktPingResp, PktPubAck, PktPubRec, PktPubComp, PktSubAck, PktUnsubAck}

-- What travels through the channels.
pub data Signal : Type 0 where
  conn_ack_signal : PktConnAck → Signal
  ping_resp_signal : PktPingResp → Signal
  pub_ack_signal : PktPubAck → Signal
  pub_rec_signal : PktPubRec → Signal
  pub_comp_signal : PktPubComp → Signal
  sub_ack_signal : PktSubAck → Signal
  unsub_ack_signal : PktUnsubAck → Signal

-- A channel that was not made yet is nil, `none`.
pub record Signaller : Type 0 where
  pub ch_conn_ack : Option ℕ
  pub ch_ping_resp : Option ℕ
  pub ch_pub_ack : Map ℕ
  pub ch_pub_rec : Map ℕ
  pub ch_pub_comp : Map ℕ
  pub ch_sub_ack : Map ℕ
  pub ch_unsub_ack : Map ℕ

-- The channel that waits for the identifier; the entry is deleted on return.
unfoldable pub take_pub_ack : ℕ → Signaller → Option ℕ × Signaller
take_pub_ack id s = (lookup id s.ch_pub_ack, record s { ch_pub_ack = delete id s.ch_pub_ack })

unfoldable pub take_pub_rec : ℕ → Signaller → Option ℕ × Signaller
take_pub_rec id s = (lookup id s.ch_pub_rec, record s { ch_pub_rec = delete id s.ch_pub_rec })

unfoldable pub take_pub_comp : ℕ → Signaller → Option ℕ × Signaller
take_pub_comp id s = (lookup id s.ch_pub_comp, record s { ch_pub_comp = delete id s.ch_pub_comp })

unfoldable pub take_sub_ack : ℕ → Signaller → Option ℕ × Signaller
take_sub_ack id s = (lookup id s.ch_sub_ack, record s { ch_sub_ack = delete id s.ch_sub_ack })

unfoldable pub take_unsub_ack : ℕ → Signaller → Option ℕ × Signaller
take_unsub_ack id s =
    (lookup id s.ch_unsub_ack, record s { ch_unsub_ack = delete id s.ch_unsub_ack })

-- The values that the channels hold.
abbrev pub Channels : Type 0
Channels = ℕ → Option Signal

abbrev put : ℕ → Signal → Channels → Channels
put ch v chans = λ c. if c == ch then some v else chans c

-- `select { case ch <- v: default: }`
unfoldable pub send : Option ℕ → Signal → Channels → Channels
send none v chans = chans
send (some ch) v chans = elim (chans ch) [ none ↦ put ch v chans | some old ↦ chans ]
