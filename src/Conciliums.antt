-- ===== src/Conciliums.antt =====
-- conciliums/: the two kinds of concilium definition and what they share.
pub mod Rounds
pub mod RoundRobin
pub mod Gcd
pub mod Doubles
pub mod Pos
pub mod Concilium
pub mod Draw
pub mod Turns
pub mod Rotation
pub mod Quorum
