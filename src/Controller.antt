-- ===== src/Controller.antt =====
-- The controller: controller/controller.go. What Kubernetes holds is in Kube, the translation of the
-- custom resource in Extract, the two stores in Stores, and the reconcile functions in Reconcile; the
-- theorems are in Priorities and Steps; Wrapper has the client of kube/client.go.
pub mod Kube
pub mod Extract
pub mod Stores
pub mod Reconcile
pub mod Extends
pub mod Contents
pub mod Skipped
pub mod Served
pub mod Priorities
pub mod Steps
pub mod Wrapper
