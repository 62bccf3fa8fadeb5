-- ===== src/PostOffice.antt =====
-- network/post.cc and machine/network.cc: messages between the mailboxes of machines. A mailbox is
-- the sequence of its SynchList; the socket is what `SendToSocket` is given and `ReadFromSocket`
-- returns. A header has three words of four bytes, low byte first.
pub mod Frame
pub mod Delivery
use nachos_3_4_lab.Prelude.{
  ℕ, ◌+◌, ◌*◌, ◌^◌, List, [], ◌∷◌, ◌++◌, Bool, true, false, not, ◌&&◌, Option, none, some, ltb, leb,
  ◌==◌, if◌then◌else◌, length, get_or, get_elem?, set,
}
use nachos_3_4_lab.Prelude.Outcome.{Outcome, ok, wild, ◌>>=◌, ◌>>◌, assert}
use nachos_3_4_lab.Prelude.Copy.{copy_in, copy_out}
use nachos_3_4_lab.Disk.{ints_bytes}

-- `PacketHeader` and `MailHeader`; a header takes 12 bytes.
pub record PacketHeader : Type 0 where
  pub to : ℕ
  pub from : ℕ
  pub length_of_packet : ℕ

pub record MailHeader : Type 0 where
  pub to : ℕ
  pub from : ℕ
  pub length_of_mail : ℕ

-- `MaxWireSize`, `MaxPacketSize` and `MaxMailSize`
abbrev pub max_wire_size : ℕ
max_wire_size = 64

abbrev pub max_packet_size : ℕ
max_packet_size = 52

abbrev pub max_mail_size : ℕ
max_mail_size = 40

-- `Mail`
pub record Mail : Type 0 where
  pub pkt_hdr : PacketHeader
  pub mail_hdr : MailHeader
  pub data_bytes : List ℕ

-- `Network`
pub record Network : Type 0 where
  pub ident : ℕ
  pub send_busy : Bool
  pub in_hdr : PacketHeader
  pub inbox : List ℕ

-- `PostOffice`; `numBoxes` is the number of boxes.
pub record PostOffice : Type 0 where
  pub net_addr : ℕ
  pub boxes : List (List Mail)

-- A word of a buffer.
abbrev pub word_of : ℕ → List ℕ → ℕ
word_of i b =
    get_or b i 0
    + 256 * get_or b (i + 1) 0
    + 65536 * get_or b (i + 2) 0
    + 16777216 * get_or b (i + 3) 0

-- `*(PacketHeader *)buffer` and `*(MailHeader *)buffer`
unfoldable pub packet_header : List ℕ → PacketHeader
packet_header b = record { to = word_of 0 b; from = word_of 4 b; length_of_packet = word_of 8 b }

unfoldable pub mail_header : List ℕ → MailHeader
mail_header b = record { to = word_of 0 b; from = word_of 4 b; length_of_mail = word_of 8 b }

-- A header and `n` bytes of data after it, in a buffer.
unfoldable pub frame : (to from size : ℕ) (n : ℕ) → List ℕ → (buffer : List ℕ) → Outcome (List ℕ)
frame to from size n payload buffer = do
  b ← copy_in (ints_bytes (to ∷ from ∷ size ∷ [])) 0 buffer
  bytes ← copy_out n 0 payload
  copy_in bytes 12 b

-- `Network::Send`, less the interrupt that it schedules; `lost` is whether the packet gets lost, and
-- the result what goes to the socket.
unfoldable pub network_send :
    (lost : Bool) (fresh : List ℕ) → PacketHeader → List ℕ → Network → Outcome (Option (List ℕ))
network_send lost fresh hdr payload net = do
  assert (
      not net.send_busy
      && ltb 0 hdr.length_of_packet
      && leb hdr.length_of_packet max_packet_size
      && hdr.from == net.ident)
  if lost then ok none else (do
    wire ← frame hdr.to hdr.from hdr.length_of_packet hdr.length_of_packet payload fresh
    ok (some wire))

-- `Network::CheckPktAvail` with what is in the socket: whether the read handler is called.
unfoldable pub check_pkt_avail : Option (List ℕ) → Network → Outcome (Bool × Network)
check_pkt_avail none net = ok (false, net)
check_pkt_avail (some wire) net =
    if not (net.in_hdr.length_of_packet == 0) then ok (false, net) else (do
      let hdr = packet_header wire
      assert (hdr.to == net.ident && leb hdr.length_of_packet max_packet_size)
      bytes ← copy_out hdr.length_of_packet 12 wire
      inbox ← copy_in bytes 0 net.inbox
      ok (true, record net { in_hdr = hdr; inbox = inbox }))

-- `Network::Receive` into a buffer
unfoldable pub network_receive : List ℕ → Network → Outcome (PacketHeader × List ℕ × Network)
network_receive buffer net = do
  bytes ← copy_out net.in_hdr.length_of_packet 0 net.inbox
  buffer' ← copy_in bytes 0 buffer
  ok (
    net.in_hdr,
    buffer',
    record net {
      in_hdr = record { to = net.in_hdr.to; from = net.in_hdr.from; length_of_packet = 0 };
    },
  )

-- `Mail::Mail`, of the data from an index of a buffer on
unfoldable pub new_mail : (fresh : List ℕ) → PacketHeader → MailHeader → ℕ → List ℕ → Outcome Mail
new_mail fresh pkt_hdr mail_hdr o buffer = do
  assert (leb mail_hdr.length_of_mail max_mail_size)
  bytes ← copy_out mail_hdr.length_of_mail o buffer
  data_bytes ← copy_in bytes 0 fresh
  ok (record { pkt_hdr = pkt_hdr; mail_hdr = mail_hdr; data_bytes = data_bytes })

-- `MailBox::Put` and `MailBox::Get`; with no mail in the box the thread waits.
unfoldable pub put : Mail → List Mail → List Mail
put mail box = box ++ mail ∷ []

unfoldable pub get : List Mail → Outcome (Option ((PacketHeader × MailHeader × List ℕ) × List Mail))
get [] = ok none
get (mail ∷ box) = do
  bytes ← copy_out mail.mail_hdr.length_of_mail 0 mail.data_bytes
  ok (some ((mail.pkt_hdr, mail.mail_hdr, bytes), box))

-- `PostOffice::Send`, under its lock
unfoldable pub send :
    (lost : Bool) (fresh wire_fresh : List ℕ)
    → PacketHeader
    → MailHeader
    → List ℕ
    → PostOffice
    → Network
    → Outcome (Option (List ℕ))
send lost fresh wire_fresh pkt_hdr mail_hdr payload po net = do
  assert (leb mail_hdr.length_of_mail max_mail_size)
  assert (ltb mail_hdr.to (length po.boxes))
  let hdr : PacketHeader = record {
    to = pkt_hdr.to;
    from = po.net_addr;
    length_of_packet = mail_hdr.length_of_mail + 12;
  }
  buffer ←
      frame mail_hdr.to mail_hdr.from mail_hdr.length_of_mail mail_hdr.length_of_mail payload fresh
  network_send lost wire_fresh hdr buffer net

-- One round of `PostOffice::PostalDelivery`, after its `P`
unfoldable pub deliver :
    (buffer fresh : List ℕ) → PostOffice → Network → Outcome (PostOffice × Network)
deliver buffer fresh po net = do
  (pkt_hdr, buffer', net') ← network_receive buffer net
  let mail_hdr = mail_header buffer'
  assert (ltb mail_hdr.to (length po.boxes))
  assert (leb mail_hdr.length_of_mail max_mail_size)
  mail ← new_mail fresh pkt_hdr mail_hdr 12 buffer'
  ok (
    record po { boxes = set po.boxes mail_hdr.to (put mail (get_or po.boxes mail_hdr.to [])) },
    net',
  )

-- `PostOffice::Receive`
unfoldable pub receive :
    ℕ → PostOffice → Outcome (Option ((PacketHeader × MailHeader × List ℕ) × PostOffice))
receive box po = do
  assert (ltb box (length po.boxes))
  got ← get (get_or po.boxes box [])
  elim got [
    | none ↦ ok none
    | some (message, rest) ↦ (do
      assert (leb message.1.length_of_mail max_mail_size)
      ok (some (message, record po { boxes = set po.boxes box rest })))
  ]
