-- ===== src/Examples.antt =====
-- The theorems at concrete states of the program, and the states themselves.
mod Data
mod Consents
mod Agents
mod Registration
mod Cascades
mod Templates
mod Paths
mod Organizations
mod Tables
mod Replicas
mod Runs
mod Accounts
mod Anchors
