-- ===== src/Udp/Mailbox.antt =====
-- A concrete socket for the runs, as on Windows; its world is the list of the datagrams that wait.
use easy_network.Base.{
  ℕ, ◌≤◌, ◌≡◌, refl, ap, List, [], ◌∷◌, Bytes, codes, length, ltb, false, arith, if◌then◌else◌,
}
use easy_network.Net.{recv_failed}
use easy_network.Udp.{udp_buf}
use easy_network.Udp.Receive.{FromResult, arrived, from_failed, Datagrams}
use easy_network.Udp.Delivers.{Datagram, IsInbox}

abbrev first_from : ℕ → List Datagram → FromResult × List Datagram
first_from n [] = (from_failed, [])
first_from n (d ∷ ds) =
    (if ltb n (length d.bytes) then from_failed else arrived d.bytes d.address d.port, ds)

pub first_from-fits :
    (n : ℕ) (d : Datagram) (ds : List Datagram)
    → length d.bytes ≤ n
    → first_from n (d ∷ ds) ≡ (arrived d.bytes d.address d.port, ds)
first_from-fits n d ds fits =
    let room : ltb n (length d.bytes) ≡ false = ground arith in rw room refl

abbrev pub mailbox : Datagrams
mailbox = record {
  World = List Datagram;
  recvfrom = λ sock. first_from;
  recv = λ sock n w. (recv_failed, w);
  close = λ sock w. w;
}

abbrev pub mailbox-IsInbox : IsInbox mailbox 3
mailbox-IsInbox = record {
  waiting = λ w. w;
  recvfrom_first = λ n w d ds e fits. rw e (
    ap (λ (r : FromResult × List Datagram). r.0) (first_from-fits n d ds fits),
    ap (λ (r : FromResult × List Datagram). r.1) (first_from-fits n d ds fits),
  );
}

abbrev pub sent_from : Bytes → Datagram
sent_from message = record { bytes = udp_buf message; address = codes "host"; port = 80 }
