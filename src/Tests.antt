-- ===== src/Tests.antt =====
-- Runs of the model, and the theorems at concrete data, over sample instances of the external code.
mod Library
mod Merging
mod External
mod Building
mod Cluster
mod Names
mod Objects
mod Settings
mod Certificates
mod ApiSecret
mod Status
mod StatefulSets
mod Runs
mod Convergence
mod Pods
mod Main
mod Serving
