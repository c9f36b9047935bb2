-- ===== src/FileClient/Both.antt =====
-- Both connections or none.
use easy_network.Base.{ℕ, ◌≡◌, Bool, Option, List, [], ◌∷◌, ◌++◌}
use easy_network.TcpClient.{Host, is_connected}
use easy_network.FileClient.{FtClient}

module _ {World : Type 0} (host eternal_host : Host World) where
  -- What the two connections are after `Connect` returned `ok`.
  abbrev pub BothOrNone : Bool → FtClient World → Type 0
  BothOrNone ok fc =
      (is_connected host fc.base ≡ ok) × (is_connected eternal_host fc.eternal_ft_client ≡ ok)

  -- `closed` are the sockets for which CloseSocket was called, in order.
  pub record IsClosing : Type 0 where
    pub closed : World → List (Option ℕ)
    pub closes : (s : Option ℕ) (w : World) → closed (host.close_socket s w) ≡ closed w ++ (s ∷ [])
    pub eternal_closes :
        (s : Option ℕ) (w : World) → closed (eternal_host.close_socket s w) ≡ closed w ++ (s ∷ [])
