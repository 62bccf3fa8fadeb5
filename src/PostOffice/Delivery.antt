-- ===== src/PostOffice/Delivery.antt =====
-- A message that is sent is delivered and received.
use nachos_3_4_lab.Prelude.{
  ℕ, ◌+◌, ◌-◌, ◌^◌, ◌<◌, ◌≤◌, ◌≡◌, ◌∙◌, refl, ap, ap₂, List, [], ◌∷◌, true, false, not, ◌&&◌, some,
  ltb, leb, ◌==◌, length, set, get_or, get_or-set_self, length-set, arith,
}
use nachos_3_4_lab.Prelude.Outcome.{ok}
use nachos_3_4_lab.Prelude.Copy.{
  copy_in, copy_out, put_bytes, bytes_at, copy_in_fits, copy_out_fits, length-put_bytes,
  get_or-put_bytes, length-bytes_at, get_or-bytes_at,
}
use nachos_3_4_lab.PostOffice.{
  PacketHeader, MailHeader, Mail, Network, PostOffice, word_of, packet_header, mail_header, frame,
  network_send, check_pkt_avail, network_receive, new_mail, put, get, send, deliver, receive,
}
use nachos_3_4_lab.PostOffice.Frame.{Framed, frame-Framed}

-- `bcopy` of `n` bytes from an index of one buffer to the start of another.
moved :
    (n o : ℕ) (src dst : List ℕ)
    → o + n ≤ length src
    → n ≤ length dst
    → (bytes dst' : List ℕ) × (copy_out n o src ≡ ok bytes)
      × (copy_in bytes 0 dst ≡ ok dst')
      × (length dst' ≡ length dst)
      × ((j : ℕ) → j < n → get_or dst' j 0 ≡ get_or src (o + j) 0)
moved n o src dst p q =
    let bytes : List ℕ = bytes_at n o src in
    let size : length bytes ≡ n = length-bytes_at n o src in
    (
      bytes,
      put_bytes bytes 0 dst,
      copy_out_fits n o src p,
      copy_in_fits bytes 0 dst (omega (arith, size, q)),
      length-put_bytes bytes 0 dst,
      λ j lt.
          let written = get_or-put_bytes bytes 0 dst j (omega (arith, size, q)) in
          let e : j - 0 ≡ j = omega arith in
          let same : get_or bytes (j - 0) 0 ≡ get_or bytes j 0 = ap (λ i. get_or bytes i 0) e in
          ground (arith, written, same, size, lt, get_or-bytes_at n o src j lt),
    )

same_packet :
    (a b c : ℕ) {x y z : ℕ}
    → a ≡ x
    → b ≡ y
    → c ≡ z
    → Path PacketHeader
        (record { to = a; from = b; length_of_packet = c })
        (record { to = x; from = y; length_of_packet = z })
same_packet a b c p q r = rw (p, q, r) refl

same_mail :
    (a b c : ℕ) {x y z : ℕ}
    → a ≡ x
    → b ≡ y
    → c ≡ z
    → Path MailHeader
        (record { to = a; from = b; length_of_mail = c })
        (record { to = x; from = y; length_of_mail = z })
same_mail a b c p q r = rw (p, q, r) refl

packet_header-Framed :
    {to from size n : ℕ} {payload : List ℕ} (b : List ℕ)
    → Framed to from size n payload b
    → packet_header b ≡ record { to = to; from = from; length_of_packet = size }
unfolding packet_header
packet_header-Framed b f =
    same_packet (word_of 0 b) (word_of 4 b) (word_of 8 b) f.first f.second f.third

-- The header of a mail that has been copied.
mail_header-Framed :
    {to from size n : ℕ} {payload b : List ℕ} (b' : List ℕ)
    → Framed to from size n payload b
    → ((j : ℕ) → j < 12 → get_or b' j 0 ≡ get_or b j 0)
    → mail_header b' ≡ record { to = to; from = from; length_of_mail = size }
unfolding mail_header
mail_header-Framed b' f same =
    same_mail (word_of 0 b') (word_of 4 b') (word_of 8 b')
      (omega (
        arith,
        f.first,
        same 0 (omega arith),
        same 1 (omega arith),
        same 2 (omega arith),
        same 3 (omega arith),
      ))
      (omega (
        arith,
        f.second,
        same 4 (omega arith),
        same 5 (omega arith),
        same 6 (omega arith),
        same 7 (omega arith),
      ))
      (omega (
        arith,
        f.third,
        same 8 (omega arith),
        same 9 (omega arith),
        same 10 (omega arith),
        same 11 (omega arith),
      ))

same_letter :
    (p : PacketHeader) (h : MailHeader) (data_bytes : List ℕ) {p' : PacketHeader} {h' : MailHeader}
    → p ≡ p'
    → h ≡ h'
    → Path Mail
        (record { pkt_hdr = p; mail_hdr = h; data_bytes = data_bytes })
        (record { pkt_hdr = p'; mail_hdr = h'; data_bytes = data_bytes })
same_letter p h data_bytes e e' =
    ap₂ (λ x y. record { pkt_hdr = x; mail_hdr = y; data_bytes = data_bytes }) e e'

-- `Receive` from a box with mail.
receive_first :
    (box : ℕ) (po : PostOffice) (p : PacketHeader) (h : MailHeader) (data_bytes : List ℕ)
    (rest : List Mail) {bytes : List ℕ}
    → ltb box (length po.boxes) ≡ true
    → get_or po.boxes box [] ≡ record { pkt_hdr = p; mail_hdr = h; data_bytes = data_bytes } ∷ rest
    → copy_out h.length_of_mail 0 data_bytes ≡ ok bytes
    → leb h.length_of_mail 40 ≡ true
    → receive box po ≡ ok (some ((p, h, bytes), record po { boxes = set po.boxes box rest }))
unfolding receive get
receive_first box po p h data_bytes rest inside there out short =
    rw (inside, there, out, short) refl

-- A message that can be sent from one post office to a box of another.
pub record IsMessage (pkt_hdr : PacketHeader) (mail_hdr : MailHeader) (payload : List ℕ)
    (po po' : PostOffice) : Type 0 where
  pub short : mail_hdr.length_of_mail ≤ 40
  pub enough : mail_hdr.length_of_mail ≤ length payload
  pub box_here : mail_hdr.to < length po.boxes
  pub box_there : mail_hdr.to < length po'.boxes
  pub to_word : mail_hdr.to < 2 ^ 32
  pub from_word : mail_hdr.from < 2 ^ 32
  pub machine_word : pkt_hdr.to < 2 ^ 32
  pub address_word : po.net_addr < 2 ^ 32

-- Buffers of the sizes that the code asks for.
pub record AreBuffers (fresh wire_fresh buffer mail_fresh : List ℕ) : Type 0 where
  pub packet_size : length fresh ≡ 52
  pub wire_size : length wire_fresh ≡ 64
  pub buffer_size : length buffer ≡ 52
  pub mail_size : length mail_fresh ≡ 40

module _ (pkt_hdr : PacketHeader) (mail_hdr : MailHeader) (payload : List ℕ) (po po' : PostOffice)
    (net net' : Network) {fresh wire_fresh buffer mail_fresh : List ℕ}
    (msg : IsMessage pkt_hdr mail_hdr payload po po')
    (bufs : AreBuffers fresh wire_fresh buffer mail_fresh) (idle : net.send_busy ≡ false)
    (here : po.net_addr ≡ net.ident) (empty : net'.in_hdr.length_of_packet ≡ 0)
    (there : pkt_hdr.to ≡ net'.ident) (inbox_size : length net'.inbox ≡ 52) where
  -- The packet as it arrives.
  abbrev arrived : PacketHeader
  arrived = record {
    to = pkt_hdr.to;
    from = po.net_addr;
    length_of_packet = mail_hdr.length_of_mail + 12;
  }

  sent :
      {b wire : List ℕ}
      → leb mail_hdr.length_of_mail 40 ≡ true
      → ltb mail_hdr.to (length po.boxes) ≡ true
      → frame mail_hdr.to mail_hdr.from mail_hdr.length_of_mail mail_hdr.length_of_mail payload
          fresh
        ≡ ok b
      → (not net.send_busy
          && ltb 0 (mail_hdr.length_of_mail + 12)
          && leb (mail_hdr.length_of_mail + 12) 52
          && po.net_addr == net.ident)
        ≡ true
      → frame pkt_hdr.to po.net_addr
          (mail_hdr.length_of_mail + 12)
          (mail_hdr.length_of_mail + 12)
          b
          wire_fresh
        ≡ ok wire
      → send false fresh wire_fresh pkt_hdr mail_hdr payload po net ≡ ok (some wire)
  unfolding send network_send
  sent short box framed free framed' = rw (short, box, framed, free, framed') refl

  checked :
      (wire : List ℕ) {bytes inbox : List ℕ}
      → packet_header wire ≡ arrived
      → not (net'.in_hdr.length_of_packet == 0) ≡ false
      → (pkt_hdr.to == net'.ident && leb (mail_hdr.length_of_mail + 12) 52) ≡ true
      → copy_out (mail_hdr.length_of_mail + 12) 12 wire ≡ ok bytes
      → copy_in bytes 0 net'.inbox ≡ ok inbox
      → check_pkt_avail (some wire) net'
        ≡ ok (true, record net' { in_hdr = arrived; inbox = inbox })
  unfolding check_pkt_avail
  checked wire hdr ready right out into = rw (ready, hdr, right, out, into) refl

  send_arrives :
      (b wire inbox : List ℕ) × (send false fresh wire_fresh pkt_hdr mail_hdr payload po net
        ≡ ok (some wire))
      × (check_pkt_avail (some wire) net'
          ≡ ok (true, record net' { in_hdr = arrived; inbox = inbox }))
      × (length inbox ≡ 52)
      × Framed mail_hdr.to mail_hdr.from mail_hdr.length_of_mail mail_hdr.length_of_mail payload b
      × ((j : ℕ) → j < mail_hdr.length_of_mail + 12 → get_or inbox j 0 ≡ get_or b j 0)
  send_arrives =
      let n : ℕ = mail_hdr.length_of_mail in
      let (b, framed, size, f) =
        frame-Framed mail_hdr.to mail_hdr.from n n payload fresh msg.to_word msg.from_word
          (omega (arith, msg.short)) msg.enough (omega (arith, msg.short, bufs.packet_size)) in
      let (wire, framed', size', f') =
        frame-Framed pkt_hdr.to po.net_addr (n + 12) (n + 12) b wire_fresh msg.machine_word
          msg.address_word (omega (arith, msg.short))
          (omega (arith, size, bufs.packet_size, msg.short))
          (omega (arith, msg.short, bufs.wire_size)) in
      let (bytes, inbox, out, into, size'', same) =
        moved (n + 12) 12 wire net'.inbox (omega (arith, size', bufs.wire_size, msg.short))
          (omega (arith, inbox_size, msg.short)) in
      let short : leb n 40 ≡ true = ground (arith, msg.short) in
      let box : ltb mail_hdr.to (length po.boxes) ≡ true = ground (arith, msg.box_here) in
      let free : (not net.send_busy
            && ltb 0 (n + 12)
            && leb (n + 12) 52
            && po.net_addr == net.ident)
          ≡ true =
        ground (arith, idle, here, msg.short) in
      let ready : not (net'.in_hdr.length_of_packet == 0) ≡ false = ground (arith, empty) in
      let right : (pkt_hdr.to == net'.ident && leb (n + 12) 52) ≡ true =
        ground (arith, there, msg.short) in
      (
        b,
        wire,
        inbox,
        sent short box framed free framed',
        checked wire (packet_header-Framed wire f') ready right out into,
        size'' ∙ inbox_size,
        f,
        λ j lt. same j lt ∙ f'.rest j lt,
      )

  pub deliver-send :
      (wire : List ℕ) × (net₁ net₂ : Network) × (mail : Mail) × (send false fresh wire_fresh pkt_hdr
          mail_hdr payload po net
        ≡ ok (some wire))
      × (check_pkt_avail (some wire) net' ≡ ok (true, net₁))
      × (deliver buffer mail_fresh po' net₁
          ≡ ok (
            record po' {
              boxes = set po'.boxes mail_hdr.to (put mail (get_or po'.boxes mail_hdr.to []));
            },
            net₂,
          ))
      × (net₂.in_hdr.length_of_packet ≡ 0)
      × (mail.pkt_hdr ≡ arrived)
      × (mail.mail_hdr ≡ mail_hdr)
      × (length mail.data_bytes ≡ 40)
      × ((j : ℕ) → j < mail_hdr.length_of_mail → get_or mail.data_bytes j 0 ≡ get_or payload j 0)
  unfolding deliver network_receive new_mail
  deliver-send =
      let n : ℕ = mail_hdr.length_of_mail in
      let (b, wire, inbox, did_send, did_check, size, f, same) = send_arrives in
      let (bytes, buffer', out, into, size', same') =
        moved (n + 12) 0 inbox buffer (omega (arith, size, msg.short))
          (omega (arith, bufs.buffer_size, msg.short)) in
      let copied : (j : ℕ) → j < n + 12 → get_or buffer' j 0 ≡ get_or b j 0 =
        λ j lt. same' j lt ∙ ap (λ i. get_or inbox i 0) (omega arith) ∙ same j lt in
      let hdr : mail_header buffer' ≡ mail_hdr =
        mail_header-Framed buffer' f (λ j lt. copied j (omega (arith, lt))) in
      let (bytes', data_bytes, out', into', size'', same'') =
        moved n 12 buffer' mail_fresh (omega (arith, size', bufs.buffer_size, msg.short))
          (omega (arith, bufs.mail_size, msg.short)) in
      let box : ltb mail_hdr.to (length po'.boxes) ≡ true = ground (arith, msg.box_there) in
      let short : leb n 40 ≡ true = ground (arith, msg.short) in
      (
        wire,
        record net' { in_hdr = arrived; inbox = inbox },
        record net' { in_hdr = record arrived { length_of_packet = 0 }; inbox = inbox },
        record { pkt_hdr = arrived; mail_hdr = mail_hdr; data_bytes = data_bytes },
        did_send,
        did_check,
        rw (out, into, hdr, box, short, out', into') refl,
        refl,
        refl,
        refl,
        size'' ∙ bufs.mail_size,
        λ j lt. same'' j lt ∙ copied (12 + j) (omega (arith, lt)) ∙ f.rest j lt,
      )

  -- If a message has at most 40 bytes and as many are given, its box is one of both post offices,
  -- its addresses fit 32 bits, the buffers have the sizes that the code asks for, the sender's
  -- network is not busy and has its address, and the receiver's has no packet, the address that the
  -- message goes to and an inbox of 52 bytes, and the box there is empty, then, unless the packet
  -- gets lost, `Send`, the arrival of the packet, `PostalDelivery` and `Receive` from the box run
  -- one after the other and give back the headers, with the sender's address and the length filled
  -- in, and the bytes of the message, and the receiver's network has no packet left.
  pub receive-send :
      get_or po'.boxes mail_hdr.to [] ≡ []
      → (wire bytes : List ℕ) × (net₁ net₂ : Network) × (po₁ po₂ : PostOffice) × (send false fresh
            wire_fresh pkt_hdr mail_hdr payload po net
          ≡ ok (some wire))
        × (check_pkt_avail (some wire) net' ≡ ok (true, net₁))
        × (deliver buffer mail_fresh po' net₁ ≡ ok (po₁, net₂))
        × (receive mail_hdr.to po₁ ≡ ok (some ((arrived, mail_hdr, bytes), po₂)))
        × (net₂.in_hdr.length_of_packet ≡ 0)
        × (length bytes ≡ mail_hdr.length_of_mail)
        × ((j : ℕ) → j < mail_hdr.length_of_mail → get_or bytes j 0 ≡ get_or payload j 0)
  unfolding receive get put
  receive-send no_mail =
      let n : ℕ = mail_hdr.length_of_mail in
      let (wire, net₁, net₂, mail, did_send, did_check, delivered, done, pkt, hdr, size, same) =
        deliver-send in
      let bytes : List ℕ = bytes_at n 0 mail.data_bytes in
      let out : copy_out n 0 mail.data_bytes ≡ ok bytes =
        copy_out_fits n 0 mail.data_bytes (omega (arith, size, msg.short)) in
      let boxes : List (List Mail) = set po'.boxes mail_hdr.to (mail ∷ []) in
      let inside : ltb mail_hdr.to (length boxes) ≡ true =
        ground (arith, length-set po'.boxes mail_hdr.to (mail ∷ []), msg.box_there) in
      let box : get_or boxes mail_hdr.to [] ≡ mail ∷ [] =
        get_or-set_self po'.boxes mail_hdr.to (mail ∷ []) [] msg.box_there in
      let short : leb n 40 ≡ true = ground (arith, msg.short) in
      (
        wire,
        bytes,
        net₁,
        net₂,
        record po' { boxes = boxes },
        record po' { boxes = set boxes mail_hdr.to [] },
        did_send,
        did_check,
        delivered
            ∙ ap (λ l. ok (record po' { boxes = set po'.boxes mail_hdr.to (put mail l) }, net₂))
                no_mail,
        receive_first mail_hdr.to (record po' { boxes = boxes }) arrived mail_hdr mail.data_bytes []
            inside
            (box
              ∙ ap (λ m. m ∷ []) (same_letter mail.pkt_hdr mail.mail_hdr mail.data_bytes pkt hdr))
            out short,
        done,
        length-bytes_at n 0 mail.data_bytes,
        λ j lt.
            get_or-bytes_at n 0 mail.data_bytes j lt
            ∙ ap (λ i. get_or mail.data_bytes i 0) (omega arith)
            ∙ same j lt,
      )
