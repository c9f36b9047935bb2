-- ===== src/FileClient.antt =====
-- EN_FT_Client.cpp: a client with a second connection, over which files go.
pub mod Both
mod Tests
use easy_network.Base.{ℕ, Bool, true, false, Bytes, if◌then◌else◌}
use easy_network.TcpClient.{Client, Host, connect, disconnect, send_to_server}

-- EN_FT_Client is an EN_TCP_Client with another one as its member.
pub record FtClient (World : Type 0) : Type 0 where
  pub base : Client World
  pub eternal_ft_client : Client World

-- Each of the two has its own virtual functions.
module _ {World : Type 0} (host eternal_host : Host World) where
  unfoldable pub ft_connect : Bytes → ℕ → ℕ → FtClient World → World → Bool × FtClient World × World
  ft_connect ip_addr tcp_port ft_port fc w =
      let (ok, base', w₁) = connect host ip_addr tcp_port fc.base w in
      let (both, eternal', w₂) = connect eternal_host ip_addr ft_port fc.eternal_ft_client w₁ in
      let (left, w₃) = disconnect host true false base' w₂ in
      if ok
      then if both
        then (true, record { base = base'; eternal_ft_client = eternal' }, w₂)
        else (false, record { base = left; eternal_ft_client = eternal' }, w₃)
      else (false, record { base = base'; eternal_ft_client = fc.eternal_ft_client }, w₁)

  unfoldable pub ft_disconnect : FtClient World → World → FtClient World × World
  ft_disconnect fc w =
      let (base', w₁) = disconnect host true false fc.base w in
      let (eternal', w₂) = disconnect eternal_host true false fc.eternal_ft_client w₁ in
      (record { base = base'; eternal_ft_client = eternal' }, w₂)

  pub send_test : Bytes → FtClient World → World → Bool × World
  send_test test fc w = send_to_server eternal_host test fc.eternal_ft_client w
