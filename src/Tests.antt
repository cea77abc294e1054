-- ===== src/Tests.antt =====
-- Runs of the model on small inputs, by the part of the program that they are about.
mod Rules
mod Router
mod Tokens
mod Tables
mod Requests
mod Creations
mod Sessions
mod Panels
mod Managers
