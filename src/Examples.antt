-- ===== src/Examples.antt =====
-- Runs of the modelled code on fixed inputs, and the theorems at concrete arguments.
mod Bridge
mod Http
mod Xmppd
mod Https
mod Cgi
mod Radio
mod Loop
mod Requests
mod Tls
mod Programs
mod Json
mod Accounts
