-- ===== src/Remote.antt =====
-- internal/target/remote: delivery over SMTP. `Dane` is dane.go, `Discovery` and `Policy` are security.go,
-- `Connect` is the connection to one MX of connect.go, `Mx` the choice of an MX, `Pool` the idle connections,
-- `Client` the commands to a server, `Start`, `Delivery` and `Sending` are remote.go, `Runs` a whole delivery.
pub mod Dane
pub mod Policy
pub mod Connect
pub mod Pool
pub mod Mx
pub mod Client
pub mod Start
pub mod Delivery
pub mod Sending
pub mod Runs
pub mod Discovery
